-- ===== src/Etl/Runs/Marks.antt =====
-- Which checkpoints count as completed after some documents have been upserted.
use mathlib.Core.List.{Perm}
use huracan.Prelude.{
  ℕ, ◌≡◌, refl, sym, ap, ◌⊎◌, max, ◌∙◌, Bool, inl, inr, true, not, none, ◌&&◌, ◌||◌, List, [], ◌∷◌,
  ◌++◌, leb, ◌==◌, elem, elem-append, Bool-cases, arith,
}
use huracan.Mongo.{Checkpoint}
use huracan.Mongo.Documents.{others}
use huracan.Etl.Backfill.{max_stop, ids}
use huracan.Etl.Backfill.Ranges.{is_complete}
use huracan.Etl.Backfill.Unordered.{mark_of, max_stop-cons, elem-Perm, max_stop-Perm}

-- Documents were added for `ys`, and the stop marks stay.
pub record Adds (ys : List ℕ) (docs new : List Checkpoint) : Type 0 where
  pub stops : max_stop 0 new ≡ max_stop 0 docs
  pub stored : (x : ℕ) → elem x (ids new) ≡ (elem x (ids docs) || elem x ys)

-- No real checkpoint at or below the highest stop mark.
abbrev pub is_above : ℕ → List Checkpoint → Bool
is_above y docs = not (leb 1 y && leb y (max_stop 0 docs))

pub Adds-none : (docs : List Checkpoint) → Adds [] docs docs
Adds-none docs = record { stops = refl; stored = λ x. ground arith }

pub Adds-append :
    (ys zs : List ℕ) (docs mid new : List Checkpoint)
    → Adds ys docs mid
    → Adds zs mid new
    → Adds (ys ++ zs) docs new
Adds-append ys zs docs mid new a b = record {
  stops = b.stops ∙ a.stops;
  stored = λ x. ground (arith, a.stored x, b.stored x, elem-append x ys zs);
}

elem-others :
    (x y : ℕ) (docs : List Checkpoint)
    → elem x (ids (others y docs)) ≡ (elem x (ids docs) && not (x == y))
elem-others x y [] = refl
elem-others x y (c ∷ cs) = ground (arith, elem-others x y cs)

mark_of-cases : (c : Checkpoint) → (mark_of c ≡ 0) ⊎ (mark_of c ≡ c.id)
mark_of-cases c = ground arith

max_stop-others :
    (y : ℕ) (docs : List Checkpoint)
    → is_above y docs ≡ true
    → max_stop 0 (others y docs) ≡ max_stop 0 docs
max_stop-others y [] h = refl
max_stop-others y (c ∷ cs) h =
    let whole = max_stop-cons c cs in
    let ih = max_stop-others y cs (ground (arith, whole)) in
    elim (Bool-cases (c.id == y)) [
      | inl own ↦
          (let none_there : mark_of c ≡ 0 = ground (arith, whole, mark_of-cases c) in
            simp own (ih ∙ ground (arith, whole)))
      | inr other ↦ simp other (max_stop-cons c (others y cs) ∙ ap (max (mark_of c)) ih ∙ sym whole)
    ]

pub upsert-Adds :
    (y : ℕ) (docs new : List Checkpoint)
    → is_above y docs ≡ true
    → Perm new ((record { id = y; stop = none }) ∷ others y docs)
    → Adds (y ∷ []) docs new
upsert-Adds y docs new h p = record {
  stops =
      max_stop-Perm new _ p
      ∙ max_stop-cons (record { id = y; stop = none }) (others y docs)
      ∙ ground (arith, max_stop-others y docs h);
  stored = λ x. elem-Perm x new _ p ∙ ground (arith, elem-others x y docs);
}

pub is_complete-Adds :
    (x : ℕ) (ys : List ℕ) (docs new : List Checkpoint)
    → Adds ys docs new
    → is_complete x new ≡ (is_complete x docs || elem x ys)
is_complete-Adds x ys docs new a = ground (arith, a.stops, a.stored x)
