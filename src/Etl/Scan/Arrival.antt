-- ===== src/Etl/Scan/Arrival.antt =====
-- When a scan announces each checkpoint that it asks for.
use huracan.Prelude.{
  ℕ, ◌-◌, ◌≤◌, ◌≡◌, ◌≢◌, refl, sym, ◌∙◌, ap, ◌⊎◌, inl, inr, Bool, true, false, Option, none, some,
  List, [], ◌∷◌, ◌++◌, ◌==◌, ◌||◌, length, Bool-cases, arith,
}
use huracan.Etl.Types.{Response, page, failed, KeyStore}
use huracan.Etl.Scan.{
  Env, Scan, Fetched, finished, emit_blocks, ask, send_control, fetch_pages, scan_checkpoint,
  scan_loop,
}
use huracan.Etl.Scan.Queries.{asked, after_page_cases, asked-scan_checkpoint}
use huracan.Etl.Scan.Counts.{Told, scan_checkpoint-Reports}
use huracan.Etl.Scan.Ledger.{told, told-append}
use huracan.Etl.Scan.Flow.{IsLast, IsFlowing, emit_blocks-open, scan_checkpoint-Goes}
use huracan.Etl.Scan.Loop.{scan_loop_rule}

-- The last page comes before the retries are used up.
abbrev pub Arrives : ℕ → ℕ → List Response → Type 0
Arrives retries left [] = ⊥
Arrives retries left (failed ∷ rs) = (1 ≤ left) × Arrives retries (left - 1) rs
Arrives retries left (page ts p ∷ rs) = IsLast p ⊎ Arrives retries retries rs

abbrev pub IsArriving : Env → Type 0
IsArriving env = (cp : ℕ) → Arrives env.checkpointretries env.checkpointretries (env.responses cp)

append_one : (ms : List ℕ) (n : ℕ) → ms ++ n ∷ [] ≢ []
append_one [] n e = cc
append_one (m ∷ ms) n e = cc

module _ (store : KeyStore) (env : Env) (flowing : IsFlowing env) (arriving : IsArriving env) where
  send_control-finished : (cp : ℕ) (s : Scan store) → (send_control store env cp s).1 ≡ finished
  unfolding send_control
  send_control-finished cp s = ground (arith, flowing.controls (length s.control))

  fetch_pages-finished :
      (cp : ℕ) (rs : List Response) (left : ℕ) (cursor : Option ℕ) (s : Scan store)
      → s.is_closed ≡ false
      → Arrives env.checkpointretries left rs
      → (fetch_pages store env cp rs left cursor s).1 ≡ finished
  unfolding fetch_pages
  fetch_pages-finished cp [] left cursor s h x = absurd x
  fetch_pages-finished cp (failed ∷ rs) left cursor s h (more, x) =
      ground (arith, fetch_pages-finished cp rs (left - 1) cursor (ask store env cp cursor s) h x)
  fetch_pages-finished cp (page ts p ∷ rs) left cursor s h x =
      let t : Scan store = emit_blocks store env cp ts p.blocks (ask store env cp cursor s) in
      let e : t.is_closed ≡ false =
        emit_blocks-open store env flowing cp ts p.blocks (ask store env cp cursor s) ∙ h in
      after_page_cases store env (λ r. r.1 ≡ finished) cp p t
        (λ c. fetch_pages store env cp rs env.checkpointretries (some c) t) (λ z. cc)
        (λ z l. send_control-finished cp t)
        (λ c z n m. elim x [
          | inl l ↦ ground arith
          | inr more ↦ fetch_pages-finished cp rs env.checkpointretries (some c) t e more
        ])

  scan_checkpoint-finished :
      (cp : ℕ) (s : Scan store)
      → s.is_closed ≡ false
      → (scan_checkpoint store env cp s).1 ≡ finished
  unfolding scan_checkpoint
  scan_checkpoint-finished cp s h =
      fetch_pages-finished cp (env.responses cp) env.checkpointretries none
        (record s { num_objects = 0 }) h (arriving cp)

  Told-control :
      (cp : ℕ) (s t : Scan store) (f : Fetched)
      → f ≡ finished
      → Told store env cp s t f
      → t.control ≡ s.control ++ (cp, t.num_objects) ∷ []
  Told-control cp s t f e told = (rw e at told).0

  module _ (x : ℕ) where
    -- A checkpoint that was asked for is announced.
    abbrev pub Announced : Scan store → Type 0
    Announced s = asked x s.queries ≡ true → told x s.control ≢ []

    abbrev Keeps : Scan store → Scan store → Type 0
    Keeps s t = s.is_closed ≡ false → (t.is_closed ≡ false) × (Announced s → Announced t)

    scan_checkpoint-Keeps : (cp : ℕ) (s : Scan store) → Keeps s (scan_checkpoint store env cp s).0
    scan_checkpoint-Keeps cp s open_ =
        let r = scan_checkpoint store env cp s in
        let f : r.1 ≡ finished = scan_checkpoint-finished cp s open_ in
        let start : Scan store = record s { num_objects = 0 } in
        let c : r.0.control ≡ s.control ++ (cp, r.0.num_objects) ∷ [] =
          Told-control cp start r.0 r.1 f (scan_checkpoint-Reports store env cp s).0 in
        let all : told x r.0.control ≡ told x s.control ++ told x ((cp, r.0.num_objects) ∷ []) =
          ap (told x) c ∙ told-append x s.control ((cp, r.0.num_objects) ∷ []) in
        (
          (scan_checkpoint-Goes store env flowing cp s open_).1,
          λ h a.
              by_case (told x s.control) r.0.num_objects cp (asked x s.queries) h
                (sym (asked-scan_checkpoint store env x cp s) ∙ a) (told x r.0.control) all,
        )
      where
        by_case :
            (before : List ℕ) (n cp : ℕ) (b : Bool)
            → (b ≡ true → before ≢ [])
            → (b || x == cp) ≡ true
            → (after : List ℕ) → after ≡ before ++ told x ((cp, n) ∷ [])
            → after ≢ []
        by_case [] n cp b h a after e z = elim (Bool-cases b) [
          | inl y ↦ absurd (h y refl)
          | inr y ↦ ground arith
        ]
        by_case (m ∷ ms) n cp b h a after e z = ground arith

    pub scan_loop-Announced :
        (fuel step first : ℕ) (ranges : List (ℕ × ℕ)) (s : Scan store)
        → s.is_closed ≡ false
        → Announced s
        → Announced (scan_loop store env fuel step first ranges s).0
    scan_loop-Announced fuel step first ranges s o a =
        (scan_loop_rule store env step Keeps (λ s o. (o, λ h. h))
            (λ s t u p q o. let (o', f) = p o in let (o'', g) = q o' in (o'', λ h. g (f h))) fuel
            first ranges s (λ cp g s. scan_checkpoint-Keeps cp s) o).1
          a
