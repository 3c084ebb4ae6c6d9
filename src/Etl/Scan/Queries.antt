-- ===== src/Etl/Scan/Queries.antt =====
-- Which checkpoints a scan asks the RPC client for.
use huracan.Prelude.{
  ℕ, ◌-◌, ◌≡◌, refl, ◌∙◌, ◌⊎◌, inl, inr, Bool, true, false, Option, none, some, List, [], ◌∷◌, ◌++◌,
  ◌==◌, ◌||◌, Bool-cases, Option-cases, arith,
}
use huracan.Etl.Types.{Block, Page, Response, page, failed, KeyStore}
use huracan.Etl.Scan.Rules.{emit_blocks_rule}
use huracan.Etl.Scan.{
  Scan, Env, Fetched, closed, emit_object, emit_blocks, send_control, ask, after_page, fetch_pages,
  scan_checkpoint,
}

-- Whether the queries (checkpoint, cursor) have one for a checkpoint.
abbrev pub asked : ℕ → List (ℕ × Option ℕ) → Bool
asked x [] = false
asked x ((cp, cursor) ∷ qs) = x == cp || asked x qs

asked-append :
    (x : ℕ) (ps qs : List (ℕ × Option ℕ)) → asked x (ps ++ qs) ≡ (asked x ps || asked x qs)
asked-append x [] qs = refl
asked-append x ((cp, c) ∷ ps) qs = ground (arith, asked-append x ps qs)

module _ (store : KeyStore) (env : Env) where
  emit_object-queries :
      (cp : ℕ) (t : Option ℕ) (ts : ℕ) (p : ℕ × ℕ × Bool) (s : Scan store)
      → (emit_object store env cp t ts p s).queries ≡ s.queries
  unfolding emit_object
  emit_object-queries cp t ts p s = ground arith

  emit_blocks-queries :
      (cp ts : ℕ) (bs : List Block) (s : Scan store)
      → (emit_blocks store env cp ts bs s).queries ≡ s.queries
  emit_blocks-queries cp ts =
      emit_blocks_rule store env cp ts (λ s t. t.queries ≡ s.queries) (λ s. refl)
        (λ s t u p q. q ∙ p) (λ s d. refl) (λ s t p o. emit_object-queries cp t ts p s)

  asked-ask :
      (x cp : ℕ) (cursor : Option ℕ) (s : Scan store)
      → asked x (ask store env cp cursor s).queries ≡ (asked x s.queries || x == cp)
  asked-ask x cp cursor s = asked-append x s.queries ((cp, cursor) ∷ []) ∙ ground arith

  send_control-queries :
      (cp : ℕ) (s : Scan store) → (send_control store env cp s).0.queries ≡ s.queries
  unfolding send_control
  send_control-queries cp s = ground arith

  -- The three ways on from a page.
  pub after_page_cases {ℓ} :
      (P : Scan store × Fetched → Type ℓ) (cp : ℕ) (p : Page) (t : Scan store)
      (rest : ℕ → Scan store × Fetched)
      → (t.is_closed ≡ true → P (t, closed))
      → (t.is_closed ≡ false
          → (p.has_next_page ≡ false) ⊎ (p.next_cursor ≡ none)
          → P (send_control store env cp t))
      → ((c : ℕ)
          → t.is_closed ≡ false
          → p.has_next_page ≡ true
          → p.next_cursor ≡ some c
          → P (rest c))
      → P (after_page store env cp p t rest)
  unfolding after_page
  after_page_cases P cp p t rest shut last more = elim (Bool-cases t.is_closed) [
    | inl e ↦ simp e (shut e)
    | inr e ↦ elim (Bool-cases p.has_next_page) [
      | inr n ↦ simp (e, n) (last e (inl n))
      | inl n ↦ elim (Option-cases p.next_cursor) [
        | inl z ↦ simp (e, n, z) (last e (inr z))
        | inr (c, z) ↦ simp (e, n, z) (more c e n z)
      ]
    ]
  ]

  asked-page :
      (x cp ts : ℕ) (bs : List Block) (cursor : Option ℕ) (s : Scan store)
      → asked x (emit_blocks store env cp ts bs (ask store env cp cursor s)).queries
        ≡ (asked x s.queries || x == cp)
  asked-page x cp ts bs cursor s =
      rw (emit_blocks-queries cp ts bs (ask store env cp cursor s)) (asked-ask x cp cursor s)

  -- The pages of a checkpoint are asked for by that checkpoint alone.
  asked-fetch_pages :
      (x cp : ℕ) (rs : List Response) (left : ℕ) (cursor : Option ℕ) (s : Scan store)
      → asked x (fetch_pages store env cp rs left cursor s).0.queries
        ≡ (asked x s.queries || x == cp)
  unfolding fetch_pages
  asked-fetch_pages x cp [] left cursor s = asked-ask x cp cursor s
  asked-fetch_pages x cp (failed ∷ rs) left cursor s = ground (
    arith,
    asked-ask x cp cursor s,
    asked-fetch_pages x cp rs (left - 1) cursor (ask store env cp cursor s),
  )
  asked-fetch_pages x cp (page ts p ∷ rs) left cursor s =
      let t : Scan store = emit_blocks store env cp ts p.blocks (ask store env cp cursor s) in
      let e : asked x t.queries ≡ (asked x s.queries || x == cp) =
        asked-page x cp ts p.blocks cursor s in
      after_page_cases (λ r. asked x r.0.queries ≡ (asked x s.queries || x == cp)) cp p t
        (λ c. fetch_pages store env cp rs env.checkpointretries (some c) t) (λ _. e)
        (λ _ _. rw (send_control-queries cp t) e)
        (λ c _ _ _. asked-fetch_pages x cp rs env.checkpointretries (some c) t ∙ ground (arith, e))

  pub asked-scan_checkpoint :
      (x cp : ℕ) (s : Scan store)
      → asked x (scan_checkpoint store env cp s).0.queries ≡ (asked x s.queries || x == cp)
  unfolding scan_checkpoint
  asked-scan_checkpoint x cp s =
      asked-fetch_pages x cp (env.responses cp) env.checkpointretries none
        (record s { num_objects = 0 })
