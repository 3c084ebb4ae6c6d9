-- ===== src/Etl/Scan/Coverage.antt =====
-- Which checkpoints one worker of a scan asks for: those of its share that are not complete yet.
use native.Mathlib.Nat.{div-add-mod', mod-lt}
use huracan.Prelude.{
  ℕ, zero, suc, ◌+◌, ◌-◌, ◌*◌, ◌/◌, ◌≤◌, ◌<◌, ◌≡◌, sym, ◌∙◌, ◌⊎◌, inl, inr, true, false, List, ◌==◌,
  Bool-cases, arith,
}
use huracan.Etl.Types.{KeyStore}
use huracan.Utils.Coverage.{covered}
use huracan.Utils.Order.{IsDescending}
use huracan.Etl.Scan.{
  Env, Scan, Ended, Verdict, all_done, skip, fetch, check_completed, scan_checkpoint, act,
  scan_loop, go_on,
}
use huracan.Etl.Scan.Queries.{asked, asked-scan_checkpoint}
use huracan.Etl.Scan.Decision.{Explains, check_completed-Explains}

-- The numbers that `(1..=first).rev().step_by(step)` yields.
abbrev pub OnGrid : ℕ → ℕ → ℕ → Type 0
OnGrid step first x = (1 ≤ x) × ((j : ℕ) × (x + j * step ≡ first))

-- A skip goes just below `start`.
skip_below :
    (cp step start k : ℕ)
    → 1 ≤ step
    → start ≤ cp
    → k ≡ (cp - start) / step
    → cp < start + step + k * step
skip_below cp step start k h low eq =
    rw eq (omega (arith, div-add-mod' (cp - start) step, mod-lt (cp - start) {m = step} h))

module _ (store : KeyStore) (env : Env) (step : ℕ) (positive : 1 ≤ step) (x : ℕ) where
  -- What a scan from `cp` on may ask for, beside what was asked before.
  abbrev pub Sound : ℕ → List (ℕ × ℕ) → Scan store → Scan store → Type 0
  Sound cp ranges s t =
      asked x t.queries ≡ true
      → (asked x s.queries ≡ true) ⊎ (OnGrid step cp x × (covered x ranges ≡ false))

  abbrev Go : Type 0
  Go = ℕ → List (ℕ × ℕ) → Scan store → Scan store × Ended

  OnGrid-down :
      (cp k : ℕ)
      → OnGrid step (cp - step - k * step) x
      → OnGrid step cp x × (x + step + k * step ≤ cp)
  OnGrid-down cp k (p, (j, e)) = ((p, (j + 1 + k, omega arith)), omega arith)

  OnGrid-next : (cp : ℕ) → OnGrid step (cp - step) x → OnGrid step cp x × (x < cp)
  OnGrid-next cp (p, (j, e)) = ((p, (j + 1, omega arith)), omega arith)

  act_fetched :
      (cp : ℕ) (ranges : List (ℕ × ℕ)) (s : Scan store)
      → 1 ≤ cp
      → covered cp ranges ≡ false
      → Sound cp ranges s (scan_checkpoint store env cp s).0
  act_fetched cp ranges s pos new h = elim (Bool-cases (asked x s.queries)) [
    | inl old ↦ inl old
    | inr not_old ↦
        let e : x ≡ cp = ground (arith, asked-scan_checkpoint store env x cp s) in
        inr ((omega arith, (0, omega arith)), rw e new)
  ]

  act-Sound :
      (cp : ℕ) (ranges : List (ℕ × ℕ)) (s : Scan store) (go : Go) (v : Verdict)
      → 1 ≤ cp
      → Explains cp step ranges v
      → ((cp' : ℕ) (rs : List (ℕ × ℕ)) (s' : Scan store)
          → IsDescending 0 rs
          → Sound cp' rs s' (go cp' rs s').0)
      → Sound cp ranges s (act store env step cp s go v).0
  unfolding act
  act-Sound cp ranges s go all_done pos ex ih h = inl h
  act-Sound cp ranges s go (skip k rs) pos (start, low, eq, inside, below, d) ih h =
      elim (ih (cp - step - k * step) rs s d h) [
        | inl old ↦ inl old
        | inr (g, new) ↦
            let (g', under) = OnGrid-down cp k g in
            let lt = skip_below cp step start k positive low eq in
            inr (g', sym (below x (omega arith)) ∙ new)
      ]
  act-Sound cp ranges s go (fetch rs) pos (new, same, d) ih h =
      elim (Bool-cases (go_on (scan_checkpoint store env cp s).1)) [
        | inl on ↦ elim (ih (cp - step) rs (scan_checkpoint store env cp s).0 d (rw on at h)) [
          | inl old ↦ act_fetched cp ranges s pos new old
          | inr (g, fresh) ↦
              let (g', under) = OnGrid-next cp g in inr (g', sym (same x (omega arith)) ∙ fresh)
        ]
        | inr off ↦ act_fetched cp ranges s pos new (rw off at h)
      ]

  pub scan_loop-Sound :
      (fuel cp : ℕ) (ranges : List (ℕ × ℕ)) (s : Scan store)
      → IsDescending 0 ranges
      → Sound cp ranges s (scan_loop store env fuel step cp ranges s).0
  unfolding scan_loop
  scan_loop-Sound zero cp ranges s d = λ h. inl h
  scan_loop-Sound (suc fuel) cp ranges s d = elim (Bool-cases (cp == 0)) [
    | inl z ↦ rw z (λ h. inl h)
    | inr pos ↦ elim (Bool-cases (env.stop cp)) [
      | inl z ↦ rw (pos, z) (λ h. inl h)
      | inr z ↦
          rw (pos, z)
            (act-Sound cp ranges s (scan_loop store env fuel step) (check_completed cp step ranges)
              (ground arith) (check_completed-Explains cp step ranges d) (scan_loop-Sound fuel))
    ]
  ]
