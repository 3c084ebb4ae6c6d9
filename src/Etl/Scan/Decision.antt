-- ===== src/Etl/Scan/Decision.antt =====
-- What the inner loop of `do_scan` over the completed ranges decides about a checkpoint.
use huracan.Prelude.{
  ℕ, ◌-◌, ◌/◌, ◌≤◌, ◌<◌, ◌≡◌, refl, inl, inr, true, false, List, [], ◌∷◌, ltb, leb, ltb→lt,
  Bool-cases, arith,
}
use huracan.Utils.Coverage.{covered}
use huracan.Utils.Order.{DescendsBelow, IsDescending}
use huracan.Etl.Scan.{Verdict, all_done, skip, fetch, check_completed}

-- `all_done`: all that is left to scan is complete. `skip`: so is all from the checkpoint down to
-- some `start`, and the ranges left say the same below it. `fetch`: the checkpoint is not complete.
abbrev pub Explains : ℕ → ℕ → List (ℕ × ℕ) → Verdict → Type 0
Explains cp step ranges all_done = (x : ℕ) → 1 ≤ x → x ≤ cp → covered x ranges ≡ true
Explains cp step ranges (skip k rs) =
    (start : ℕ) × (start ≤ cp)
    × (k ≡ (cp - start) / step)
    × ((x : ℕ) → start ≤ x → x ≤ cp → covered x ranges ≡ true)
    × ((x : ℕ) → x < start → covered x rs ≡ covered x ranges)
    × IsDescending 0 rs
Explains cp step ranges (fetch rs) =
    (covered cp ranges ≡ false)
    × ((x : ℕ) → x ≤ cp → covered x rs ≡ covered x ranges)
    × IsDescending 0 rs

pub covered_above :
    (x bound : ℕ) (rs : List (ℕ × ℕ)) → DescendsBelow 0 bound rs → bound < x → covered x rs ≡ false
covered_above x bound [] d h = refl
covered_above x bound ((e, s) ∷ rs) d h = ground (arith, covered_above x s rs d.2)

DescendsBelow-IsDescending :
    (bound : ℕ) (rs : List (ℕ × ℕ)) → DescendsBelow 0 bound rs → IsDescending 0 rs
DescendsBelow-IsDescending bound [] d = tt
DescendsBelow-IsDescending bound ((e, s) ∷ rs) d = (d.0, d.2)

-- A range that starts above the checkpoint says nothing from the checkpoint down.
Explains-cons :
    (cp step end start : ℕ) (rs : List (ℕ × ℕ)) (v : Verdict)
    → cp < start
    → Explains cp step rs v
    → Explains cp step ((end, start) ∷ rs) v
Explains-cons cp step e s rs all_done h v = λ x p q. ground (arith, v x p q)
Explains-cons cp step e s rs (skip k qs) h (start, low, eq, inside, below, d) =
    (start, low, eq, λ x p q. ground (arith, inside x p q), λ x p. ground (arith, below x p), d)
Explains-cons cp step e s rs (fetch qs) h (new, same, d) =
    (ground arith, λ x p. ground (arith, same x p), d)

pub check_completed-Explains :
    (cp step : ℕ) (ranges : List (ℕ × ℕ))
    → IsDescending 0 ranges
    → Explains cp step ranges (check_completed cp step ranges)
unfolding check_completed
check_completed-Explains cp step [] d = (refl, λ x h. refl, tt)
check_completed-Explains cp step ((e, s) ∷ rs) d = elim (Bool-cases (ltb cp s)) [
  | inl above ↦ rw above (
      Explains-cons cp step e s rs (check_completed cp step rs) (ltb→lt cp s above)
        (check_completed-Explains cp step rs (DescendsBelow-IsDescending s rs d.1)))
  | inr not_above ↦ elim (Bool-cases (leb cp e)) [
    | inr over ↦ rw (not_above, over) (ground (arith, covered_above cp s rs d.1), λ x h. refl, d)
    | inl within ↦ elim (Bool-cases (leb s 1)) [
      | inl low ↦ rw (not_above, within, low) (λ x p q. ground arith)
      | inr high ↦
          rw (not_above, within, high)
            (
              s,
              ground arith,
              refl,
              λ x p q. ground arith,
              λ x p. ground arith,
              DescendsBelow-IsDescending s rs d.1,
            )
    ]
  ]
]
