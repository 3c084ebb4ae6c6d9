-- ===== src/Utils/Sorting.antt =====
-- main/src/utils.rs: sorting forgets the order in which the numbers come.
use mathlib.Core.Logic.{∥∥₁_elim}
use mathlib.Core.List.{Perm, Permᴰ, is_set}
use native.Mathlib.Nat.{ℕ_set}
use huracan.Prelude.{ℕ, ◌≡◌, refl, ◌∙◌, List, [], ◌∷◌, arith}
use huracan.Utils.{insert_sorted, sort_unstable}

insert_sorted_twice :
    (m n : ℕ) (ns : List ℕ)
    → insert_sorted m (insert_sorted n ns) ≡ insert_sorted n (insert_sorted m ns)
unfolding insert_sorted
insert_sorted_twice m n [] = ground arith
insert_sorted_twice m n (x ∷ xs) = ground (arith, insert_sorted_twice m n xs)

sort_unstable-Permᴰ : {ms ns : List ℕ} → Permᴰ ms ns → sort_unstable ms ≡ sort_unstable ns
unfolding sort_unstable
sort_unstable-Permᴰ Permᴰ.nil = refl
sort_unstable-Permᴰ (Permᴰ.cons e p) = rw (e, sort_unstable-Permᴰ p) refl
sort_unstable-Permᴰ (Permᴰ.swap {a} {b} {l = ns} e f) =
    rw (e, f) (insert_sorted_twice _ _ (sort_unstable ns))
sort_unstable-Permᴰ (Permᴰ.trans p q) = sort_unstable-Permᴰ p ∙ sort_unstable-Permᴰ q

pub sort_unstable-Perm : (ms ns : List ℕ) → Perm ms ns → sort_unstable ms ≡ sort_unstable ns
sort_unstable-Perm ms ns p = ∥∥₁_elim p (is_set ℕ_set _ _) sort_unstable-Permᴰ
