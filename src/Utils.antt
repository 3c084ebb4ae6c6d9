-- ===== src/Utils.antt =====
-- main/src/utils.rs: inclusive ranges of checkpoints.
pub mod Coverage
pub mod Order
pub mod Sorting
use huracan.Prelude.{
  ℕ, ◌+◌, Bool, true, false, List, [], ◌∷◌, ◌++◌, reverse, leb, ◌==◌, if◌then◌else◌,
}

-- `Vec::sort_unstable` on u64: equal numbers are the same, so any sort gives this result.
pub insert_sorted : ℕ → List ℕ → List ℕ
insert_sorted n [] = n ∷ []
insert_sorted n (x ∷ xs) = if leb n x then n ∷ x ∷ xs else x ∷ insert_sorted n xs

pub sort_unstable : List ℕ → List ℕ
unfolding insert_sorted
sort_unstable [] = []
sort_unstable (n ∷ ns) = insert_sorted n (sort_unstable ns)

-- The local variables of `make_descending_ranges`; a range is a pair (end, start).
pub record Grouping : Type 0 where
  pub start : ℕ
  pub last : ℕ  -- `end` in the source
  pub ranges : List (ℕ × ℕ)

-- The body of the `for` loop.
pub group_step : Grouping → ℕ → Grouping
group_step g n =
    if n == g.last + 1
    then record g { last = n }
    else record { start = n; last = n; ranges = g.ranges ++ (g.last, g.start) ∷ [] }

pub group_loop : Grouping → List ℕ → Grouping
group_loop g [] = g
group_loop g (n ∷ ns) = group_loop (group_step g n) ns

-- The last `ranges.push`.
pub close : Grouping → List (ℕ × ℕ)
close g = g.ranges ++ (g.last, g.start) ∷ []

pub group_sorted : List ℕ → List (ℕ × ℕ)
unfolding group_loop group_step close
group_sorted [] = []
group_sorted (n ∷ ns) =
    reverse (close (group_loop (record { start = n; last = n; ranges = [] }) ns))

unfoldable pub make_descending_ranges : List ℕ → List (ℕ × ℕ)
unfolding sort_unstable group_sorted
make_descending_ranges numbers = group_sorted (sort_unstable numbers)
