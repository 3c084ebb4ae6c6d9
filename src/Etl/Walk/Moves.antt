-- ===== src/Etl/Walk/Moves.antt =====
-- Where `traverse_checkpoints` moves, and what it announces.
use huracan.Prelude.{
  ℕ, zero, suc, ◌+◌, ◌-◌, ◌≤◌, ◌<◌, ◌≡◌, refl, ap, inl, inr, Bool, true, false, List, [], ◌∷◌, ltb,
  leb, Bool-cases, if◌then◌else◌, arith,
}
use huracan.Utils.Coverage.{covered}
use huracan.Utils.Order.{DescendsBelow, IsDescending}
use huracan.Etl.Walk.{
  MoveAction, continue, next_checkpoint, end_, Walk, announce, find_next, traverse_checkpoints,
  jump_distance,
}

-- What a move means: the end is reached when all that is left is complete; else the walk has passed
-- over complete checkpoints only, to one that is not, and the ranges left say the same from there on.
abbrev pub Passes : ℕ → List (ℕ × ℕ) → MoveAction → ℕ → List (ℕ × ℕ) → Type 0
Passes next ranges end_ cp rs = (x : ℕ) → 1 ≤ x → x ≤ next → covered x ranges ≡ true
Passes next ranges _ cp rs =
    (cp ≤ next)
    × (covered cp ranges ≡ false)
    × ((x : ℕ) → cp < x → x ≤ next → covered x ranges ≡ true)
    × ((x : ℕ) → x ≤ cp → covered x rs ≡ covered x ranges)

covered_over :
    (x bound : ℕ) (rs : List (ℕ × ℕ))
    → DescendsBelow 2 bound rs
    → bound < x + 2
    → covered x rs ≡ false
covered_over x bound [] d h = refl
covered_over x bound ((e, s) ∷ rs) d h = ground (arith, covered_over x s rs d.2)

below-IsDescending : (bound : ℕ) (rs : List (ℕ × ℕ)) → DescendsBelow 2 bound rs → IsDescending 2 rs
below-IsDescending bound [] d = tt
below-IsDescending bound ((e, s) ∷ rs) d = (d.0, d.2)

Passes-cons :
    (next e s : ℕ) (rs : List (ℕ × ℕ)) (a : MoveAction) (cp : ℕ) (qs : List (ℕ × ℕ))
    → next < s
    → Passes next rs a cp qs
    → Passes next ((e, s) ∷ rs) a cp qs
Passes-cons next e s rs end_ cp qs h p = λ x l k. ground (arith, p x l k)
Passes-cons next e s rs continue cp qs h (low, new, over, same) =
    (low, ground arith, λ x l k. ground (arith, over x l k), λ x k. ground (arith, same x k))
Passes-cons next e s rs next_checkpoint cp qs h (low, new, over, same) =
    (low, ground arith, λ x l k. ground (arith, over x l k), λ x k. ground (arith, same x k))

-- The same for both ways to go on.
jump_or_walk :
    (jump : Bool) (next : ℕ) (ranges : List (ℕ × ℕ)) (cp : ℕ) (rs : List (ℕ × ℕ))
    → Passes next ranges continue cp rs
    → Passes next ranges (if jump then next_checkpoint else continue) cp rs
jump_or_walk true next ranges cp rs p = p
jump_or_walk false next ranges cp rs p = p

find_next-Passes :
    (next : ℕ) (ranges : List (ℕ × ℕ))
    → IsDescending 2 ranges
    → let r = find_next next next ranges in Passes next ranges r.0 r.1 r.2
unfolding find_next
find_next-Passes next [] d = (omega arith, refl, λ x l k. absurd (omega arith), λ x k. refl)
find_next-Passes next ((e, s) ∷ rs) d = elim (Bool-cases (ltb next s)) [
  | inl above ↦
      let r = find_next next next rs in
      simp above (
        Passes-cons next e s rs r.0 r.1 r.2 (ground arith)
          (find_next-Passes next rs (below-IsDescending s rs d.1)))
  | inr not_above ↦ elim (Bool-cases (leb next e)) [
    | inr over ↦
        simp (not_above, over)
          (
            omega arith,
            ground (arith, covered_over next s rs d.1),
            λ x l k. absurd (omega arith),
            λ x k. refl,
          )
    | inl within ↦ elim (Bool-cases (leb s 1)) [
      | inl low ↦ simp (not_above, within, low) (λ x l k. ground arith)
      | inr high ↦
          simp (not_above, within, high)
            (jump_or_walk (ltb jump_distance (next - (s - 1))) next ((e, s) ∷ rs) (s - 1) rs (
              ground arith,
              ground (arith, covered_over (s - 1) s rs d.1),
              λ x l k. ground arith,
              λ x k. ground arith,
            ))
    ]
  ]
]

announce-ranges : (count from : ℕ) (w : Walk) → (announce count from w).ranges ≡ w.ranges
unfolding announce
announce-ranges zero from w = refl
announce-ranges (suc count) from w = announce-ranges count (from + 1) _

announce_none : (count from : ℕ) (w : Walk) → count ≡ 0 → announce count from w ≡ w
unfolding announce
announce_none zero from w e = refl
announce_none (suc count) from w e = absurd (omega arith)

-- With ranges that have a gap between them, a move to a checkpoint leaves out complete checkpoints
-- only, and stops at one that is not complete or at the end of what is not; and a move down, which is
-- the way of the walk, announces no checkpoint.
pub traverse_checkpoints-Passes :
    (next : ℕ) (w : Walk)
    → IsDescending 2 w.ranges
    → let r = traverse_checkpoints next w in
      Passes next w.ranges r.0 r.1.cp r.1.ranges × (next ≤ w.cp → r.1.control ≡ w.control)
unfolding traverse_checkpoints
traverse_checkpoints-Passes next w d =
    let same : (announce (next - w.cp) w.cp w).ranges ≡ w.ranges =
      announce-ranges (next - w.cp) w.cp w in
    (
      rw same (find_next-Passes next w.ranges d),
      λ down. ap (λ (v : Walk). v.control) (announce_none (next - w.cp) w.cp w (omega arith)),
    )
