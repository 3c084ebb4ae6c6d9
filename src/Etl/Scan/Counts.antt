-- ===== src/Etl/Scan/Counts.antt =====
-- The control message of a checkpoint counts the items that were sent for it.
use huracan.Prelude.{
  ℕ, ◌+◌, ◌-◌, ◌≡◌, refl, ◌∙◌, ap, inl, inr, Bool, false, Option, none, some, List, [], ◌∷◌, ◌++◌,
  ◌==◌, if◌then◌else◌, length, Bool-cases, arith,
}
use huracan.Etl.Types.{ObjectItem, Block, Response, page, failed, KeyStore}
use huracan.Etl.Scan.{
  Env, Scan, Fetched, finished, gave_up, closed, panicked, waiting, emit_object, emit_blocks, ask,
  send_control, fetch_pages, scan_checkpoint,
}
use huracan.Etl.Scan.Rules.{emit_blocks_rule}
use huracan.Etl.Scan.Queries.{after_page_cases}

-- The number of items sent for a checkpoint.
abbrev pub items_of : ℕ → List (Option ℕ × ObjectItem) → ℕ
items_of x [] = 0
items_of x ((d, item) ∷ items) = (if item.cp == x then 1 else 0) + items_of x items

items_of-append :
    (x : ℕ) (is js : List (Option ℕ × ObjectItem))
    → items_of x (is ++ js) ≡ items_of x is + items_of x js
items_of-append x [] js = omega arith
items_of-append x ((d, i) ∷ is) js = omega (arith, items_of-append x is js)

module _ (store : KeyStore) (env : Env) (cp : ℕ) where
  -- From `s` to `t` as many items were sent for `cp` as were counted, none for another checkpoint,
  -- and no control message.
  pub record Sends (s t : Scan store) : Type 0 where
    pub quiet : t.control ≡ s.control
    pub was_open : t.is_closed ≡ false → s.is_closed ≡ false
    pub counted :
        t.is_closed ≡ false
        → items_of cp t.sent + s.num_objects ≡ items_of cp s.sent + t.num_objects
    pub others : (x : ℕ) → (x == cp) ≡ false → items_of x t.sent ≡ items_of x s.sent

  Sends-trans : (s t u : Scan store) → Sends s t → Sends t u → Sends s u
  Sends-trans s t u p q = record {
    quiet = q.quiet ∙ p.quiet;
    was_open = λ o. p.was_open (q.was_open o);
    counted = λ o. omega (arith, p.counted (q.was_open o), q.counted o);
    others = λ x h. q.others x h ∙ p.others x h;
  }

  emit_object-Sends :
      (ts : ℕ) (s : Scan store) (t : Option ℕ) (p : ℕ × ℕ × Bool)
      → s.is_closed ≡ false
      → Sends s (emit_object store env cp t ts p s)
  unfolding emit_object
  emit_object-Sends ts s t (id, version, deleted) o =
      let item : ObjectItem = record {
        cp = cp;
        deletion = deleted;
        id = id;
        version = version;
        ts_sui = t;
        ts_first_seen = ts;
        ingested_via = env.ingest_route;
        bytes = [];
      } in
      let more : List (Option ℕ × ObjectItem) = (s.tx_digest_once, item) ∷ [] in
      record {
        quiet = ground arith;
        was_open = λ h. o;
        counted = λ h. ground (arith, items_of-append cp s.sent more);
        others = λ x h. ground (arith, items_of-append x s.sent more);
      }

  emit_blocks-Sends :
      (ts : ℕ) (bs : List Block) (s : Scan store) → Sends s (emit_blocks store env cp ts bs s)
  emit_blocks-Sends ts =
      emit_blocks_rule store env cp ts Sends
        (λ s. record { quiet = refl; was_open = λ o. o; counted = λ o. refl; others = λ x h. refl })
        Sends-trans
        (λ s d. record {
          quiet = refl;
          was_open = λ o. o;
          counted = λ o. refl;
          others = λ x h. refl;
        })
        (emit_object-Sends ts)

  -- What the work on the checkpoint adds to the control channel.
  abbrev pub Told : Scan store → Scan store → Fetched → Type 0
  Told s t finished =
      (t.control ≡ s.control ++ (cp, t.num_objects) ∷ [])
      × (items_of cp t.sent + s.num_objects ≡ items_of cp s.sent + t.num_objects)
  Told s t _ = t.control ≡ s.control

  abbrev pub Reports : Scan store → Scan store × Fetched → Type 0
  Reports s (t, f) =
      Told s t f × ((x : ℕ) → (x == cp) ≡ false → items_of x t.sent ≡ items_of x s.sent)

  Told-after :
      (s t u : Scan store) (f : Fetched)
      → Sends s t
      → (f ≡ finished → t.is_closed ≡ false)
      → Told t u f
      → Told s u f
  Told-after s t u finished p o (c, n) =
      (c ∙ ap (λ l. l ++ (cp, u.num_objects) ∷ []) p.quiet, omega (arith, p.counted (o refl)))
  Told-after s t u gave_up p o c = c ∙ p.quiet
  Told-after s t u closed p o c = c ∙ p.quiet
  Told-after s t u panicked p o c = c ∙ p.quiet
  Told-after s t u waiting p o c = c ∙ p.quiet

  Reports-after :
      (s t : Scan store) (r : Scan store × Fetched)
      → Sends s t
      → (r.1 ≡ finished → t.is_closed ≡ false)
      → Reports t r
      → Reports s r
  Reports-after s t (u, f) p o (told, others) =
      (Told-after s t u f p o told, λ x h. others x h ∙ p.others x h)

  send_control-Reports : (s : Scan store) → Reports s (send_control store env cp s)
  unfolding send_control
  send_control-Reports s = elim (Bool-cases (env.control_open (length s.control))) [
    | inl e ↦ rw e ((refl, refl), λ x h. refl)
    | inr e ↦ rw e (refl, λ x h. refl)
  ]

  fetch_pages-Reports :
      (rs : List Response) (left : ℕ) (cursor : Option ℕ) (s : Scan store)
      → Reports s (fetch_pages store env cp rs left cursor s)
  unfolding fetch_pages
  fetch_pages-Reports [] left cursor s = (refl, λ x h. refl)
  fetch_pages-Reports (failed ∷ rs) left cursor s = elim (Bool-cases (left == 0)) [
    | inl z ↦ rw z (refl, λ x h. refl)
    | inr z ↦ rw z (fetch_pages-Reports rs (left - 1) cursor (ask store env cp cursor s))
  ]
  fetch_pages-Reports (page ts p ∷ rs) left cursor s =
      let s' = ask store env cp cursor s in
      let t : Scan store = emit_blocks store env cp ts p.blocks s' in
      let b = emit_blocks-Sends ts p.blocks s' in
      let sends : Sends s t = record {
        quiet = b.quiet;
        was_open = b.was_open;
        counted = b.counted;
        others = b.others;
      } in
      let rest = λ (c : ℕ). fetch_pages store env cp rs env.checkpointretries (some c) t in
      after_page_cases store env (Reports s) cp p t rest (λ z. (sends.quiet, sends.others))
        (λ z l.
          Reports-after s t (send_control store env cp t) sends (λ _. z) (send_control-Reports t))
        (λ c z n m.
          Reports-after s t (rest c) sends (λ _. z)
            (fetch_pages-Reports rs env.checkpointretries (some c) t))

  -- The work on a checkpoint sends one control message at most, when all its pages came, with the
  -- number of items that it sent for the checkpoint; it sends items of no other checkpoint.
  pub scan_checkpoint-Reports :
      (s : Scan store) → Reports (record s { num_objects = 0 }) (scan_checkpoint store env cp s)
  unfolding scan_checkpoint
  scan_checkpoint-Reports s =
      fetch_pages-Reports (env.responses cp) env.checkpointretries none
        (record s { num_objects = 0 })
