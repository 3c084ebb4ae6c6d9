-- ===== src/Etl/Backfill/Unordered.antt =====
-- main/src/etl.rs: `spawn_backfill_pipeline` on the documents in the order in which the database
-- happens to give them.
use mathlib.Core.Logic.{∥∥₁_elim, ∥∥₁_map}
use mathlib.Core.Bool.{Bool-set}
use mathlib.Core.List.{Perm, Permᴰ}
use native.Mathlib.Nat.{ℕ_set}
use huracan.Prelude.{
  ℕ, ◌≡◌, refl, sym, ◌∙◌, ap, inl, inr, List, [], ◌∷◌, max, elem, if◌then◌else◌, Bool-cases, arith,
}
use huracan.Mongo.{Checkpoint}
use huracan.Utils.Sorting.{sort_unstable-Perm}
use huracan.Utils.{sort_unstable, make_descending_ranges}
use huracan.Etl.Types.{KeyStore}
use huracan.Etl.Scan.{Env, Scan}
use huracan.Etl.Backfill.{is_stop, max_stop, ids, completed_checkpoint_ranges, backfill_worker}

pub max_stop_from : (a : ℕ) (docs : List Checkpoint) → max_stop a docs ≡ max a (max_stop 0 docs)
unfolding max_stop
max_stop_from a [] = ground arith
max_stop_from a (c ∷ cs) = elim (Bool-cases (is_stop c)) [
  | inl e ↦ ground (arith, max_stop_from (max a c.id) cs, max_stop_from (max 0 c.id) cs)
  | inr e ↦ ground (arith, max_stop_from a cs)
]

elem-Permᴰ :
    (x : ℕ) {docs others : List Checkpoint}
    → Permᴰ docs others
    → elem x (ids docs) ≡ elem x (ids others)
elem-Permᴰ x Permᴰ.nil = refl
elem-Permᴰ x (Permᴰ.cons e p) = ground (arith, elem-Permᴰ x p, ap (λ (c : Checkpoint). c.id) e)
elem-Permᴰ x (Permᴰ.swap e f) =
    ground (arith, ap (λ (c : Checkpoint). c.id) e, ap (λ (c : Checkpoint). c.id) f)
elem-Permᴰ x (Permᴰ.trans p q) = elem-Permᴰ x p ∙ elem-Permᴰ x q

-- What a document adds to the highest stop mark.
abbrev pub mark_of : Checkpoint → ℕ
mark_of c = if is_stop c then c.id else 0

pub max_stop-cons :
    (c : Checkpoint) (cs : List Checkpoint) → max_stop 0 (c ∷ cs) ≡ max (mark_of c) (max_stop 0 cs)
unfolding max_stop
max_stop-cons c cs = elim (Bool-cases (is_stop c)) [
  | inl e ↦ ground (arith, max_stop_from (max 0 c.id) cs)
  | inr e ↦ ground arith
]

max_stop-Permᴰ :
    {docs others : List Checkpoint} → Permᴰ docs others → max_stop 0 docs ≡ max_stop 0 others
max_stop-Permᴰ Permᴰ.nil = refl
max_stop-Permᴰ (Permᴰ.cons {a} {b} {l₁ = cs} {l₂ = ds} e p) =
    max_stop-cons a cs ∙ omega (arith, max_stop-Permᴰ p, ap mark_of e) ∙ sym (max_stop-cons b ds)
max_stop-Permᴰ (Permᴰ.swap {a} {b} {a' = c} {b' = d} {l = cs} e f) =
    max_stop-cons a (b ∷ cs)
    ∙ omega (arith, max_stop-cons b cs, max_stop-cons d cs, ap mark_of e, ap mark_of f)
    ∙ sym (max_stop-cons c (d ∷ cs))
max_stop-Permᴰ (Permᴰ.trans p q) = max_stop-Permᴰ p ∙ max_stop-Permᴰ q

pub elem-Perm :
    (x : ℕ) (docs others : List Checkpoint)
    → Perm docs others
    → elem x (ids docs) ≡ elem x (ids others)
elem-Perm x docs others p = ∥∥₁_elim p (Bool-set _ _) (elem-Permᴰ x)

pub max_stop-Perm :
    (docs others : List Checkpoint) → Perm docs others → max_stop 0 docs ≡ max_stop 0 others
max_stop-Perm docs others p = ∥∥₁_elim p (ℕ_set _ _) max_stop-Permᴰ

ids-Permᴰ : {docs others : List Checkpoint} → Permᴰ docs others → Permᴰ (ids docs) (ids others)
ids-Permᴰ Permᴰ.nil = Permᴰ.nil
ids-Permᴰ (Permᴰ.cons e p) = Permᴰ.cons (ap (λ (c : Checkpoint). c.id) e) (ids-Permᴰ p)
ids-Permᴰ (Permᴰ.swap e f) =
    Permᴰ.swap (ap (λ (c : Checkpoint). c.id) e) (ap (λ (c : Checkpoint). c.id) f)
ids-Permᴰ (Permᴰ.trans p q) = Permᴰ.trans (ids-Permᴰ p) (ids-Permᴰ q)

sorted_ids-Perm :
    (docs others : List Checkpoint)
    → Perm docs others
    → sort_unstable (ids docs) ≡ sort_unstable (ids others)
sorted_ids-Perm docs others p = sort_unstable-Perm (ids docs) (ids others) (∥∥₁_map p ids-Permᴰ)

completed_checkpoint_ranges-Perm :
    (docs others : List Checkpoint)
    → Perm docs others
    → completed_checkpoint_ranges docs ≡ completed_checkpoint_ranges others
unfolding completed_checkpoint_ranges make_descending_ranges
completed_checkpoint_ranges-Perm docs others p =
    rw (max_stop-Perm docs others p, sorted_ids-Perm docs others p) refl

-- The crawl of a worker does not depend on the order in which the documents come.
pub backfill_worker-Perm :
    (store : KeyStore) (env : Env) (docs others : List Checkpoint) (n w p : ℕ) (s : Scan store)
    → Perm docs others
    → backfill_worker store env docs n w p s ≡ backfill_worker store env others n w p s
unfolding backfill_worker
backfill_worker-Perm store env docs others n w p s same =
    rw (completed_checkpoint_ranges-Perm docs others same) refl
