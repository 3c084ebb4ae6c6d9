-- ===== src/Etl/Backfill/Ranges.antt =====
-- The completed ranges that a backfill starts from: what they hold, and their order.
use huracan.Prelude.{
  ℕ, ◌≤◌, ◌≡◌, inl, inr, Bool, true, ◌&&◌, ◌||◌, List, [], ◌∷◌, ◌++◌, ltb, leb, elem, Bool-cases,
  arith,
}
use huracan.Mongo.{Checkpoint}
use huracan.Utils.{sort_unstable, make_descending_ranges}
use huracan.Utils.Coverage.{
  covered, covered-append, covered-make_descending_ranges, elem-sort_unstable,
}
use huracan.Utils.Order.{DescendsBelow, IsDescending, make_descending_ranges-IsDescending}
use huracan.Etl.Backfill.{max_stop, ids, drop_below, completed_checkpoint_ranges}

-- A checkpoint counts as completed: its document is there, or a stop mark is not below it.
abbrev pub is_complete : ℕ → List Checkpoint → Bool
is_complete x docs = elem x (ids docs) || leb 1 (max_stop 0 docs) && leb x (max_stop 0 docs)

elem-drop_below :
    (x stop_at : ℕ) (ns : List ℕ) → elem x (drop_below stop_at ns) ≡ (leb stop_at x && elem x ns)
unfolding drop_below
elem-drop_below x stop_at [] = ground arith
elem-drop_below x stop_at (n ∷ ns) = ground (arith, elem-drop_below x stop_at ns)

-- The crawl of a backfill treats a checkpoint as completed exactly when its document is stored, or it
-- is not above the highest stop mark.
pub covered-completed_checkpoint_ranges :
    (x : ℕ) (docs : List Checkpoint)
    → covered x (completed_checkpoint_ranges docs) ≡ is_complete x docs
unfolding completed_checkpoint_ranges
covered-completed_checkpoint_ranges x docs = elim (Bool-cases (ltb 0 (max_stop 0 docs))) [
  | inl e ↦
      let stop_at : ℕ = max_stop 0 docs in
      let ns : List ℕ = drop_below stop_at (sort_unstable (ids docs)) in
      rw e (
        ground (
          arith,
          covered-append x (make_descending_ranges ns) ((stop_at, 0) ∷ []),
          covered-make_descending_ranges x ns,
          elem-drop_below x stop_at (sort_unstable (ids docs)),
          elem-sort_unstable x (ids docs),
        ))
  | inr e ↦ rw e (ground (arith, covered-make_descending_ranges x (ids docs)))
]

DescendsBelow-append :
    (bound n : ℕ) (rs : List (ℕ × ℕ))
    → n ≤ bound
    → DescendsBelow 0 bound rs
    → ((x : ℕ) → covered x rs ≡ true → n ≤ x)
    → DescendsBelow 0 bound (rs ++ (n, 0) ∷ [])
DescendsBelow-append bound n [] h d above = omega arith
DescendsBelow-append bound n ((e, s) ∷ rs) h (o, b, d) above =
    (o, b, DescendsBelow-append s n rs (above s (ground arith)) d (λ x c. above x (ground arith)))

IsDescending-append :
    (n : ℕ) (rs : List (ℕ × ℕ))
    → IsDescending 0 rs
    → ((x : ℕ) → covered x rs ≡ true → n ≤ x)
    → IsDescending 0 (rs ++ (n, 0) ∷ [])
IsDescending-append n [] d above = omega arith
IsDescending-append n ((e, s) ∷ rs) (o, d) above =
    (o, DescendsBelow-append s n rs (above s (ground arith)) d (λ x c. above x (ground arith)))

pub completed_checkpoint_ranges-IsDescending :
    (docs : List Checkpoint) → IsDescending 0 (completed_checkpoint_ranges docs)
unfolding completed_checkpoint_ranges
completed_checkpoint_ranges-IsDescending docs = elim (Bool-cases (ltb 0 (max_stop 0 docs))) [
  | inl e ↦
      let stop_at : ℕ = max_stop 0 docs in
      let ns : List ℕ = drop_below stop_at (sort_unstable (ids docs)) in
      rw e (
        IsDescending-append stop_at (make_descending_ranges ns)
          (make_descending_ranges-IsDescending ns)
          (λ x c. ground (
            arith,
            covered-make_descending_ranges x ns,
            elem-drop_below x stop_at (sort_unstable (ids docs)),
          )))
  | inr e ↦ rw e (make_descending_ranges-IsDescending (ids docs))
]
