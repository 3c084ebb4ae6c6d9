-- ===== src/Utils/Coverage.antt =====
-- Which numbers the ranges of utils.rs hold.
use huracan.Prelude.{
  ℕ, ◌≤◌, ◌≡◌, refl, ◌∙◌, Bool, false, ◌&&◌, ◌||◌, List, [], ◌∷◌, ◌++◌, reverse, leb, ◌==◌, elem,
  arith,
}
use mathlib.Core.List.{reverse-cons}
use huracan.Utils.{
  insert_sorted, sort_unstable, Grouping, group_step, group_loop, close, group_sorted,
  make_descending_ranges,
}

-- Whether a number lies in one of the ranges (end, start).
abbrev pub covered : ℕ → List (ℕ × ℕ) → Bool
covered x [] = false
covered x ((end, start) ∷ rs) = leb start x && leb x end || covered x rs

pub covered-append :
    (x : ℕ) (rs ss : List (ℕ × ℕ)) → covered x (rs ++ ss) ≡ (covered x rs || covered x ss)
covered-append x [] ss = refl
covered-append x ((e, s) ∷ rs) ss = ground (arith, covered-append x rs ss)

covered-reverse : (x : ℕ) (rs : List (ℕ × ℕ)) → covered x (reverse rs) ≡ covered x rs
covered-reverse x [] = refl
covered-reverse x ((e, s) ∷ rs) =
    rw (reverse-cons (e, s) rs, covered-append x (reverse rs) ((e, s) ∷ []), covered-reverse x rs)
      (ground arith)

elem-insert_sorted : (x n : ℕ) (ns : List ℕ) → elem x (insert_sorted n ns) ≡ (x == n || elem x ns)
unfolding insert_sorted
elem-insert_sorted x n [] = refl
elem-insert_sorted x n (m ∷ ns) = ground (arith, elem-insert_sorted x n ns)

pub elem-sort_unstable : (x : ℕ) (ns : List ℕ) → elem x (sort_unstable ns) ≡ elem x ns
unfolding sort_unstable
elem-sort_unstable x [] = refl
elem-sort_unstable x (n ∷ ns) =
    ground (arith, elem-insert_sorted x n (sort_unstable ns), elem-sort_unstable x ns)

-- One round adds the number that it reads.
covered-group_step :
    (x n : ℕ) (g : Grouping)
    → g.start ≤ g.last
    → covered x (close (group_step g n)) ≡ (covered x (close g) || x == n)
unfolding group_step close
covered-group_step x n g h = ground (
  arith,
  covered-append x g.ranges ((g.last, g.start) ∷ []),
  covered-append x g.ranges ((n, g.start) ∷ []),
  covered-append x (g.ranges ++ (g.last, g.start) ∷ []) ((n, n) ∷ []),
)

group_step_ordered :
    (n : ℕ) (g : Grouping) → g.start ≤ g.last → (group_step g n).start ≤ (group_step g n).last
unfolding group_step
group_step_ordered n g h = ground arith

covered-group_loop :
    (x : ℕ) (g : Grouping) (ns : List ℕ)
    → g.start ≤ g.last
    → covered x (close (group_loop g ns)) ≡ (covered x (close g) || elem x ns)
unfolding group_loop
covered-group_loop x g [] h = ground arith
covered-group_loop x g (n ∷ ns) h = ground (
  arith,
  covered-group_loop x (group_step g n) ns (group_step_ordered n g h),
  covered-group_step x n g h,
)

covered-group_sorted : (x : ℕ) (ns : List ℕ) → covered x (group_sorted ns) ≡ elem x ns
unfolding group_sorted
covered-group_sorted x [] = refl
covered-group_sorted x (n ∷ ns) =
    let g : Grouping = record { start = n; last = n; ranges = [] } in
    covered-reverse x (close (group_loop g ns))
    ∙ covered-group_loop x g ns (omega arith)
    ∙ unfold close in ground arith

-- A number lies in one of the ranges exactly when it is one of the numbers given.
pub covered-make_descending_ranges :
    (x : ℕ) (numbers : List ℕ) → covered x (make_descending_ranges numbers) ≡ elem x numbers
unfolding make_descending_ranges
covered-make_descending_ranges x numbers =
    covered-group_sorted x (sort_unstable numbers) ∙ elem-sort_unstable x numbers
