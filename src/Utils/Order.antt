-- ===== src/Utils/Order.antt =====
-- How the ranges of utils.rs are ordered. A gap of 0 lets neighbouring ranges share a number, which
-- repeated numbers cause; a gap of 2 leaves out at least one number between two ranges.
use huracan.Prelude.{
  ℕ, ◌+◌, ◌*◌, ◌≤◌, ◌≡◌, refl, ◌∙◌, ◌⊎◌, inl, inr, false, List, [], ◌∷◌, ◌++◌, reverse, elem, arith,
}
use mathlib.Core.List.{reverse-append}
use huracan.Utils.{
  insert_sorted, sort_unstable, Grouping, group_step, group_loop, close, group_sorted,
  make_descending_ranges,
}
use huracan.Utils.Coverage.{elem-sort_unstable}

-- Ranges (end, start), each at least `gap` below the one before.
abbrev pub DescendsBelow : ℕ → ℕ → List (ℕ × ℕ) → Type 0
DescendsBelow gap bound [] = Unit {0}
DescendsBelow gap bound ((end, start) ∷ rs) =
    (start ≤ end) × (end + gap ≤ bound) × DescendsBelow gap start rs

abbrev pub IsDescending : ℕ → List (ℕ × ℕ) → Type 0
IsDescending gap [] = Unit {0}
IsDescending gap ((end, start) ∷ rs) = (start ≤ end) × DescendsBelow gap start rs

-- Numbers that grow by at least `d`.
abbrev AscendsFrom : ℕ → ℕ → List ℕ → Type 0
AscendsFrom d b [] = Unit {0}
AscendsFrom d b (n ∷ ns) = (b + d ≤ n) × AscendsFrom d n ns

abbrev IsAscending : ℕ → List ℕ → Type 0
IsAscending d [] = Unit {0}
IsAscending d (n ∷ ns) = AscendsFrom d n ns

abbrev pub IsDistinct : List ℕ → Type 0
IsDistinct [] = Unit {0}
IsDistinct (n ∷ ns) = (elem n ns ≡ false) × IsDistinct ns

group_step-last : (n : ℕ) (g : Grouping) → (group_step g n).last ≡ n
unfolding group_step
group_step-last n g = ground arith

module _ (d : ℕ) (small : d ≤ 1) where
  insert_sorted-AscendsFrom :
      (b n : ℕ) (ns : List ℕ)
      → b + d ≤ n
      → (d ≡ 0) ⊎ (elem n ns ≡ false)
      → AscendsFrom d b ns
      → AscendsFrom d b (insert_sorted n ns)
  unfolding insert_sorted
  insert_sorted-AscendsFrom b n [] h new a = (h, tt)
  insert_sorted-AscendsFrom b n (m ∷ ns) h new a = ground (arith, insert_sorted-AscendsFrom m n ns)

  insert_sorted-IsAscending :
      (n : ℕ) (ns : List ℕ)
      → (d ≡ 0) ⊎ (elem n ns ≡ false)
      → IsAscending d ns
      → IsAscending d (insert_sorted n ns)
  unfolding insert_sorted
  insert_sorted-IsAscending n [] new a = tt
  insert_sorted-IsAscending n (m ∷ ns) new a = ground (arith, insert_sorted-AscendsFrom m n ns)

  group_step-IsDescending :
      (n : ℕ) (g : Grouping)
      → g.last + d ≤ n
      → IsDescending (2 * d) (reverse (close g))
      → IsDescending (2 * d) (reverse (close (group_step g n)))
  unfolding group_step close
  group_step-IsDescending n g h v = ground (
    arith,
    reverse-append g.ranges ((g.last, g.start) ∷ []),
    reverse-append g.ranges ((n, g.start) ∷ []),
    reverse-append (g.ranges ++ (g.last, g.start) ∷ []) ((n, n) ∷ []),
  )

  group_loop-IsDescending :
      (g : Grouping) (ns : List ℕ)
      → AscendsFrom d g.last ns
      → IsDescending (2 * d) (reverse (close g))
      → IsDescending (2 * d) (reverse (close (group_loop g ns)))
  unfolding group_loop
  group_loop-IsDescending g [] a v = v
  group_loop-IsDescending g (n ∷ ns) a v =
      group_loop-IsDescending (group_step g n) ns (rw (group_step-last n g) a.1)
        (group_step-IsDescending n g a.0 v)

  group_sorted-IsDescending :
      (ns : List ℕ) → IsAscending d ns → IsDescending (2 * d) (group_sorted ns)
  unfolding group_sorted
  group_sorted-IsDescending [] a = tt
  group_sorted-IsDescending (n ∷ ns) a =
      group_loop-IsDescending (record { start = n; last = n; ranges = [] }) ns a
        (unfold close in omega arith)

sort_unstable-IsAscending : (ns : List ℕ) → IsAscending 0 (sort_unstable ns)
unfolding sort_unstable
sort_unstable-IsAscending [] = tt
sort_unstable-IsAscending (n ∷ ns) =
    insert_sorted-IsAscending 0 (omega arith) n (sort_unstable ns) (inl refl)
      (sort_unstable-IsAscending ns)

sort_unstable-IsAscending_distinct :
    (ns : List ℕ) → IsDistinct ns → IsAscending 1 (sort_unstable ns)
unfolding sort_unstable
sort_unstable-IsAscending_distinct [] u = tt
sort_unstable-IsAscending_distinct (n ∷ ns) u =
    insert_sorted-IsAscending 1 (omega arith) n (sort_unstable ns)
      (inr (elem-sort_unstable n ns ∙ u.0)) (sort_unstable-IsAscending_distinct ns u.1)

-- Whatever the numbers, each range ends no higher than the one before it starts.
pub make_descending_ranges-IsDescending :
    (numbers : List ℕ) → IsDescending 0 (make_descending_ranges numbers)
unfolding make_descending_ranges
make_descending_ranges-IsDescending numbers =
    group_sorted-IsDescending 0 (omega arith) (sort_unstable numbers)
      (sort_unstable-IsAscending numbers)

-- The ranges of distinct numbers run from high to low, each with its start at most its end, and
-- between two neighbours at least one number is left out, so no two could be joined into one.
make_descending_ranges-separated :
    (numbers : List ℕ) → IsDistinct numbers → IsDescending 2 (make_descending_ranges numbers)
unfolding make_descending_ranges
make_descending_ranges-separated numbers u =
    group_sorted-IsDescending 1 (omega arith) (sort_unstable numbers)
      (sort_unstable-IsAscending_distinct numbers u)
