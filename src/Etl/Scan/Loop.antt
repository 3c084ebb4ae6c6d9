-- ===== src/Etl/Scan/Loop.antt =====
-- What the work on each checkpoint does to the state of a scan, the whole loop does.
use huracan.Prelude.{
  ℕ, zero, suc, ◌+◌, ◌-◌, ◌*◌, ◌≤◌, ◌≡◌, refl, ◌∙◌, inl, inr, false, List, ◌==◌, Bool-cases, arith,
}
use huracan.Etl.Types.{KeyStore}
use huracan.Etl.Scan.{
  Env, Scan, go_on, Ended, Verdict, all_done, skip, fetch, check_completed, scan_checkpoint, act,
  scan_loop,
}
use huracan.Etl.Scan.Coverage.{OnGrid}
use huracan.Etl.Scan.Counts.{items_of, scan_checkpoint-Reports}
use huracan.Etl.Scan.Queries.{asked, asked-scan_checkpoint}
use huracan.Etl.Scan.Ledger.{told, told-same}

module _ (store : KeyStore) (env : Env) (step : ℕ) where
  module _ {ℓ} (R : Scan store → Scan store → Type ℓ) (same : (s : Scan store) → R s s)
      (after : (s t u : Scan store) → R s t → R t u → R s u) where
    -- The checkpoints worked on are those on the grid.
    abbrev Works : ℕ → Type ℓ
    Works first =
        (cp : ℕ) → OnGrid step first cp → (s : Scan store) → R s (scan_checkpoint store env cp s).0

    Works-skip : (cp k : ℕ) → Works cp → Works (cp - step - k * step)
    Works-skip cp k works c (p, (j, e)) = works c (p, (j + 1 + k, omega arith))

    Works-next : (cp : ℕ) → Works cp → Works (cp - step)
    Works-next cp works c (p, (j, e)) = works c (p, (j + 1, omega arith))

    act_rule :
        (cp : ℕ) (s : Scan store) (go : ℕ → List (ℕ × ℕ) → Scan store → Scan store × Ended)
        (v : Verdict)
        → 1 ≤ cp
        → Works cp
        → ((cp' : ℕ) (rs : List (ℕ × ℕ)) (t : Scan store) → Works cp' → R t (go cp' rs t).0)
        → R s (act store env step cp s go v).0
    unfolding act
    act_rule cp s go all_done pos works ih = same s
    act_rule cp s go (skip k rs) pos works ih =
        ih (cp - step - k * step) rs s (Works-skip cp k works)
    act_rule cp s go (fetch rs) pos works ih =
        let t = (scan_checkpoint store env cp s).0 in
        let one : R s t = works cp (pos, (0, omega arith)) s in
        elim (Bool-cases (go_on (scan_checkpoint store env cp s).1)) [
          | inl on ↦
              rw on
                (after s t (go (cp - step) rs t).0 one (ih (cp - step) rs t (Works-next cp works)))
          | inr off ↦ rw off one
        ]

    pub scan_loop_rule :
        (fuel cp : ℕ) (ranges : List (ℕ × ℕ)) (s : Scan store)
        → Works cp
        → R s (scan_loop store env fuel step cp ranges s).0
    unfolding scan_loop
    scan_loop_rule zero cp ranges s works = same s
    scan_loop_rule (suc fuel) cp ranges s works = elim (Bool-cases (cp == 0)) [
      | inl z ↦ rw z (same s)
      | inr pos ↦ elim (Bool-cases (env.stop cp)) [
        | inl z ↦ rw (pos, z) (same s)
        | inr z ↦
            rw (pos, z)
              (act_rule cp s (scan_loop store env fuel step) (check_completed cp step ranges)
                (ground arith) works (scan_loop_rule fuel))
      ]
    ]

  -- Nothing is sent or announced for a checkpoint off the grid.
  abbrev pub Silent : ℕ → Scan store → Scan store → Type 0
  Silent x s t = (told x t.control ≡ told x s.control) × (items_of x t.sent ≡ items_of x s.sent)

  scan_checkpoint-Silent :
      (x cp : ℕ) (s : Scan store)
      → 1 ≤ step
      → (cp == x) ≡ false
      → Silent x s (scan_checkpoint store env cp s).0
  scan_checkpoint-Silent x cp s positive other =
      let r = scan_checkpoint store env cp s in
      let (tell, others) = scan_checkpoint-Reports store env cp s in
      (
        told-same store env step positive x cp (record s { num_objects = 0 }) r.0 r.1 (inl other)
            tell,
        others x (ground arith),
      )

  pub scan_loop-Silent :
      (x fuel first : ℕ) (ranges : List (ℕ × ℕ)) (s : Scan store)
      → 1 ≤ step
      → (OnGrid step first x → ⊥)
      → Silent x s (scan_loop store env fuel step first ranges s).0
  scan_loop-Silent x fuel first ranges s positive off =
      scan_loop_rule (Silent x) (λ s. (refl, refl)) (λ s t u (a, b) (c, d). (c ∙ a, d ∙ b)) fuel
        first ranges s
        (λ cp g s. elim (Bool-cases (cp == x)) [
          | inl own ↦ absurd (off (let e : cp ≡ x = ground arith in rw e at g))
          | inr other ↦ scan_checkpoint-Silent x cp s positive other
        ])

  -- Nor for one that the scan does not ask for.
  abbrev Unasked : ℕ → Scan store → Scan store → Type 0
  Unasked x s t = asked x t.queries ≡ false → (asked x s.queries ≡ false) × Silent x s t

  pub scan_loop-Unasked :
      (x fuel first : ℕ) (ranges : List (ℕ × ℕ)) (s : Scan store)
      → 1 ≤ step
      → asked x (scan_loop store env fuel step first ranges s).0.queries ≡ false
      → Silent x s (scan_loop store env fuel step first ranges s).0
  scan_loop-Unasked x fuel first ranges s positive h =
      (scan_loop_rule (Unasked x) (λ s e. (e, (refl, refl)))
        (λ s t u p q e.
          let (mid, (c, d)) = q e in let (start, (a, b)) = p mid in (start, (c ∙ a, d ∙ b)))
        fuel first ranges s
        (λ cp g s e.
          let both = asked-scan_checkpoint store env x cp s in
          (ground (arith, both), scan_checkpoint-Silent x cp s positive (ground (arith, both))))
        h).1
