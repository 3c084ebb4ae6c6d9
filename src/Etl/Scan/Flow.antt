-- ===== src/Etl/Scan/Flow.antt =====
-- When the work on a checkpoint comes to an end: the receivers are there, and the answers of the RPC
-- client reach a last page or use up the retries.
use huracan.Prelude.{
  ℕ, ◌-◌, ◌≡◌, ◌≢◌, ◌==◌, Bool-cases, refl, ◌∙◌, ◌⊎◌, inl, inr, Bool, true, false, Option, none,
  some, List, [], ◌∷◌, length, arith,
}
use huracan.Etl.Types.{Block, Page, Response, page, failed, KeyStore}
use huracan.Etl.Scan.Rules.{emit_block_rule, emit_blocks_rule}
use huracan.Etl.Scan.{
  Env, Scan, Fetched, waiting, go_on, emit_object, emit_block, emit_blocks, ask, send_control,
  fetch_pages, scan_checkpoint,
}
use huracan.Etl.Scan.Queries.{after_page_cases}

-- The page is the last one of its checkpoint, as the loop decides it.
abbrev pub IsLast : Page → Type 0
IsLast p = (p.has_next_page ≡ false) ⊎ (p.next_cursor ≡ none)

-- With `left` retries left, and `retries` after each page that comes.
abbrev pub Settles : ℕ → ℕ → List Response → Type 0
Settles retries left [] = ⊥
Settles retries left (failed ∷ rs) = (left ≡ 0) ⊎ Settles retries (left - 1) rs
Settles retries left (page ts p ∷ rs) = IsLast p ⊎ Settles retries retries rs

-- Nothing from outside ends the task.
pub record IsFlowing (env : Env) : Type 0 where
  pub unstopped : (cp : ℕ) → env.stop cp ≡ false
  pub items : (k : ℕ) → env.items_open k ≡ true
  pub controls : (k : ℕ) → env.control_open k ≡ true
  pub answers : (cp : ℕ) → Settles env.checkpointretries env.checkpointretries (env.responses cp)

module _ (store : KeyStore) (env : Env) where
  send_control-answered : (cp : ℕ) (s : Scan store) → (send_control store env cp s).1 ≢ waiting
  unfolding send_control
  send_control-answered cp s = elim (Bool-cases (env.control_open (length s.control))) [
    | inl e ↦ simp e (λ z. cc)
    | inr e ↦ simp e (λ z. cc)
  ]

  fetch_pages-answered :
      (cp : ℕ) (rs : List Response) (left : ℕ) (cursor : Option ℕ) (s : Scan store)
      → Settles env.checkpointretries left rs
      → (fetch_pages store env cp rs left cursor s).1 ≢ waiting
  unfolding fetch_pages
  fetch_pages-answered cp [] left cursor s x = absurd x
  fetch_pages-answered cp (failed ∷ rs) left cursor s x = elim (Bool-cases (left == 0)) [
    | inl e ↦ simp e (λ z. cc)
    | inr e ↦ elim x [
      | inl z ↦ absurd (ground arith)
      | inr more ↦
          simp e (fetch_pages-answered cp rs (left - 1) cursor (ask store env cp cursor s) more)
    ]
  ]
  fetch_pages-answered cp (page ts p ∷ rs) left cursor s x =
      let t : Scan store = emit_blocks store env cp ts p.blocks (ask store env cp cursor s) in
      after_page_cases store env (λ r. r.1 ≢ waiting) cp p t
        (λ c. fetch_pages store env cp rs env.checkpointretries (some c) t) (λ z e. cc)
        (λ z l. send_control-answered cp t)
        (λ c z n m. elim x [
          | inl (inl l) ↦ absurd cc
          | inl (inr l) ↦ absurd cc
          | inr more ↦ fetch_pages-answered cp rs env.checkpointretries (some c) t more
        ])

  pub scan_checkpoint-answered :
      (cp : ℕ) (s : Scan store)
      → Settles env.checkpointretries env.checkpointretries (env.responses cp)
      → (scan_checkpoint store env cp s).1 ≢ waiting
  unfolding scan_checkpoint
  scan_checkpoint-answered cp s x =
      fetch_pages-answered cp (env.responses cp) env.checkpointretries none
        (record s { num_objects = 0 }) x

module _ (store : KeyStore) (env : Env) (flowing : IsFlowing env) where
  emit_object-open :
      (cp : ℕ) (t : Option ℕ) (ts : ℕ) (p : ℕ × ℕ × Bool) (s : Scan store)
      → (emit_object store env cp t ts p s).is_closed ≡ s.is_closed
  unfolding emit_object
  emit_object-open cp t ts p s = ground (arith, flowing.items (length s.sent))

  pub emit_block-open :
      (cp ts : ℕ) (b : Block) (s : Scan store)
      → (emit_block store env cp ts b s).is_closed ≡ s.is_closed
  emit_block-open cp ts =
      emit_block_rule store env cp ts (λ s t. t.is_closed ≡ s.is_closed) (λ s. refl)
        (λ s t u p q. q ∙ p) (λ s d. refl) (λ s t p o. emit_object-open cp t ts p s)

  pub emit_blocks-open :
      (cp ts : ℕ) (bs : List Block) (s : Scan store)
      → (emit_blocks store env cp ts bs s).is_closed ≡ s.is_closed
  emit_blocks-open cp ts =
      emit_blocks_rule store env cp ts (λ s t. t.is_closed ≡ s.is_closed) (λ s. refl)
        (λ s t u p q. q ∙ p) (λ s d. refl) (λ s t p o. emit_object-open cp t ts p s)

  -- The crawl goes on after the checkpoint, with the channel open.
  abbrev Goes : Scan store × Fetched → Type 0
  Goes r = (go_on r.1 ≡ true) × (r.0.is_closed ≡ false)

  send_control-Goes :
      (cp : ℕ) (s : Scan store) → s.is_closed ≡ false → Goes (send_control store env cp s)
  unfolding send_control
  send_control-Goes cp s h = ground (arith, flowing.controls (length s.control))

  fetch_pages-Goes :
      (cp : ℕ) (rs : List Response) (left : ℕ) (cursor : Option ℕ) (s : Scan store)
      → s.is_closed ≡ false
      → Settles env.checkpointretries left rs
      → Goes (fetch_pages store env cp rs left cursor s)
  unfolding fetch_pages
  fetch_pages-Goes cp [] left cursor s h x = absurd x
  fetch_pages-Goes cp (failed ∷ rs) left cursor s h x =
      ground (arith, fetch_pages-Goes cp rs (left - 1) cursor (ask store env cp cursor s) h)
  fetch_pages-Goes cp (page ts p ∷ rs) left cursor s h x =
      let t : Scan store = emit_blocks store env cp ts p.blocks (ask store env cp cursor s) in
      let e : t.is_closed ≡ false =
        emit_blocks-open cp ts p.blocks (ask store env cp cursor s) ∙ h in
      after_page_cases store env Goes cp p t
        (λ c. fetch_pages store env cp rs env.checkpointretries (some c) t) (λ z. cc)
        (λ z l. send_control-Goes cp t e)
        (λ c z n m. elim x [
          | inl l ↦ ground arith
          | inr more ↦ fetch_pages-Goes cp rs env.checkpointretries (some c) t e more
        ])

  pub scan_checkpoint-Goes :
      (cp : ℕ) (s : Scan store) → s.is_closed ≡ false → Goes (scan_checkpoint store env cp s)
  unfolding scan_checkpoint
  scan_checkpoint-Goes cp s h =
      fetch_pages-Goes cp (env.responses cp) env.checkpointretries none
        (record s { num_objects = 0 }) h (flowing.answers cp)
