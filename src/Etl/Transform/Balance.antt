-- ===== src/Etl/Transform/Balance.antt =====
-- How many items of a checkpoint leave an object worker.
use huracan.Prelude.{
  ℕ, ◌+◌, ◌≤◌, ◌≡◌, refl, inl, inr, false, Option, none, some, List, [], ◌∷◌, ◌++◌, map, length,
  ◌==◌, if◌then◌else◌, Bool-cases, Option-cases, arith,
}
use huracan.Client.Objects.{
  ObjectTypes, ObjectResponse, Parsed, indexed, dropped, panicked, parse_get_object_response,
}
use huracan.Etl.Types.{ObjectItem, StepStatus, ok, err}
use huracan.Etl.Transform.{
  deletions, changed, Yields, and_then, with_object, Source, take_response, each_response,
  one_by_one, use_answer, fetch, transform_chunk, transform_batched, yield_item,
}

abbrev pub items_for : ℕ → List ObjectItem → ℕ
items_for x [] = 0
items_for x (i ∷ is) = (if i.cp == x then 1 else 0) + items_for x is

-- Items of either status.
abbrev pub yields_for : ℕ → List (StepStatus × ObjectItem) → ℕ
yields_for x [] = 0
yields_for x ((status, i) ∷ is) = (if i.cp == x then 1 else 0) + yields_for x is

abbrev pub total_for : ℕ → List (List ObjectItem) → ℕ
total_for x [] = 0
total_for x (c ∷ cs) = items_for x c + total_for x cs

pub yields_for-append :
    (x : ℕ) (is js : List (StepStatus × ObjectItem))
    → yields_for x (is ++ js) ≡ yields_for x is + yields_for x js
yields_for-append x [] js = omega arith
yields_for-append x ((s, i) ∷ is) js = ground (arith, yields_for-append x is js)

pub yields_for-deletions :
    (x : ℕ) (is : List ObjectItem) → yields_for x (map (λ i. (ok, i)) is) ≡ items_for x is
yields_for-deletions x [] = refl
yields_for-deletions x (i ∷ is) = ground (arith, yields_for-deletions x is)

pub items_for-split :
    (x : ℕ) (c : List ObjectItem)
    → items_for x (deletions c) + items_for x (changed c) ≡ items_for x c
unfolding deletions changed
items_for-split x [] = refl
items_for-split x (i ∷ is) = elim (Bool-cases i.deletion) [
  | inl e ↦ simp e (omega (arith, items_for-split x is))
  | inr e ↦ simp e (omega (arith, items_for-split x is))
]

and_then_le :
    (x m n : ℕ) (a b : Yields)
    → yields_for x a.items ≤ m
    → yields_for x b.items ≤ n
    → yields_for x (and_then a b).items ≤ m + n
and_then_le x m n a b p q = elim (Bool-cases a.panics) [
  | inl e ↦ simp e (omega arith)
  | inr e ↦ simp e (omega (arith, yields_for-append x a.items b.items))
]

-- The number of items that one item can become.
abbrev pub one_for : ℕ → ObjectItem → ℕ
one_for x i = if i.cp == x then 1 else 0

with_object_le :
    (x : ℕ) (i : ObjectItem) (p : Parsed) → yields_for x (with_object i p).items ≤ one_for x i
with_object_le x i (indexed v b) = ground arith
with_object_le x i dropped = ground arith
with_object_le x i panicked = ground arith

module _ (types : ObjectTypes) (source : Source types) where
  take_response_le :
      (x : ℕ) (i : ObjectItem) (r : ObjectResponse types)
      → yields_for x (take_response types source i r).items ≤ one_for x i
  unfolding take_response
  take_response_le x i r =
      with_object_le x i
        (parse_get_object_response types source.whitelist source.blacklist i.id r).1

  each_response_le :
      (x : ℕ) (is : List ObjectItem) (rs : List (ObjectResponse types))
      → yields_for x (each_response types source is rs).items ≤ items_for x is
  unfolding each_response
  each_response_le x [] rs = omega arith
  each_response_le x (i ∷ is) [] = omega arith
  each_response_le x (i ∷ is) (r ∷ rs) =
      and_then_le x (one_for x i) (items_for x is) (take_response types source i r)
        (each_response types source is rs) (take_response_le x i r) (each_response_le x is rs)

  one_by_one_le :
      (x : ℕ) (is : List ObjectItem)
      → yields_for x (one_by_one types source is).items ≤ items_for x is
  unfolding one_by_one
  one_by_one_le x [] = omega arith
  one_by_one_le x (i ∷ is) = elim (Option-cases (source.get_object_with_options i.id)) [
    | inl e ↦ simp e (
        and_then_le x (one_for x i) (items_for x is) (yield_item err i) (one_by_one types source is)
          (ground arith) (one_by_one_le x is))
    | inr (r, e) ↦ simp e (
        and_then_le x (one_for x i) (items_for x is) (take_response types source i r)
          (one_by_one types source is) (take_response_le x i r) (one_by_one_le x is))
  ]

  use_answer_le :
      (x : ℕ) (is : List ObjectItem) (answer : Option (List (ObjectResponse types)))
      → yields_for x (use_answer types source is answer).items ≤ items_for x is
  unfolding use_answer
  use_answer_le x is none = one_by_one_le x is
  use_answer_le x is (some rs) = elim (Bool-cases (length rs == length is)) [
    | inl l ↦ simp l (each_response_le x is rs)
    | inr l ↦ simp l (omega arith)
  ]

  fetch_le :
      (x : ℕ) (is : List ObjectItem) → yields_for x (fetch types source is).items ≤ items_for x is
  unfolding fetch
  fetch_le x is = use_answer_le x is (source.multi_get_object_with_options (map (λ i. i.id) is))

  pub transform_chunk_le :
      (x : ℕ) (c : List ObjectItem)
      → yields_for x (transform_chunk types source c).items ≤ items_for x c
  unfolding transform_chunk
  transform_chunk_le x c =
      let le =
        and_then_le x (items_for x (deletions c)) (items_for x (changed c))
          (record { items = map (λ i. (ok, i)) (deletions c); panics = false })
          (fetch types source (changed c)) (omega (arith, yields_for-deletions x (deletions c)))
          (fetch_le x (changed c)) in
      omega (arith, le, items_for-split x c)

  -- An object worker never passes on more items of a checkpoint than it took, whatever the RPC
  -- client answers.
  transform_batched_le :
      (x : ℕ) (chunks : List (List ObjectItem))
      → yields_for x (transform_batched types source chunks).items ≤ total_for x chunks
  unfolding transform_batched
  transform_batched_le x [] = omega arith
  transform_batched_le x (c ∷ cs) =
      and_then_le x (items_for x c) (total_for x cs) (transform_chunk types source c)
        (transform_batched types source cs) (transform_chunk_le x c) (transform_batched_le x cs)
