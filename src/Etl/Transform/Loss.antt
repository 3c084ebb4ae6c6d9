-- ===== src/Etl/Transform/Loss.antt =====
-- The items of a checkpoint through an object worker whose RPC client answers all requests.
use huracan.Prelude.{
  ℕ, ◌+◌, ◌≡◌, refl, inl, inr, true, false, Option, none, some, List, [], ◌∷◌, map, length, ◌==◌,
  Option-cases, arith,
}
use huracan.Client.Objects.{ObjectTypes, ObjectResponse, indexed, parse_get_object_response}
use huracan.Etl.Types.{ObjectItem, ok, err}
use huracan.Etl.Transform.{
  deletions, changed, Yields, and_then, Source, take_response, each_response, one_by_one,
  use_answer, fetch, transform_chunk, transform_batched, yield_item,
}
use huracan.Etl.Transform.Balance.{
  items_for, yields_for, total_for, one_for, yields_for-append, yields_for-deletions,
  items_for-split,
}

-- All goes out, without a panic.
pub record Keeps (count : ℕ → ℕ) (y : Yields) : Type 0 where
  pub calm : y.panics ≡ false
  pub all_out : (x : ℕ) → yields_for x y.items ≡ count x

and_then-Keeps :
    (m n : ℕ → ℕ) (a b : Yields) → Keeps m a → Keeps n b → Keeps (λ x. m x + n x) (and_then a b)
and_then-Keeps m n a b p q = simp p.calm (record {
  calm = q.calm;
  all_out = λ x. omega (arith, yields_for-append x a.items b.items, p.all_out x, q.all_out x);
})

module _ (types : ObjectTypes) (source : Source types) where
  -- A response becomes a version and bytes.
  abbrev pub IsUsable : ℕ → ObjectResponse types → Type 0
  IsUsable id r =
      (version : ℕ) × (bytes : List ℕ) × ((parse_get_object_response types source.whitelist
          source.blacklist id r).1
        ≡ indexed version bytes)

  abbrev pub AreUsable : List ℕ → List (ObjectResponse types) → Type 0
  AreUsable [] [] = Unit {0}
  AreUsable [] (r ∷ rs) = ⊥
  AreUsable (id ∷ ids) [] = ⊥
  AreUsable (id ∷ ids) (r ∷ rs) = IsUsable id r × AreUsable ids rs

  -- Requests may fail, but an answer has a usable response for each object, in order.
  pub record AnswersAll : Type 0 where
    pub in_common :
        (ids : List ℕ) (rs : List (ObjectResponse types))
        → source.multi_get_object_with_options ids ≡ some rs
        → AreUsable ids rs
    pub alone :
        (id : ℕ) (r : ObjectResponse types)
        → source.get_object_with_options id ≡ some r
        → IsUsable id r

  take_response-Keeps :
      (i : ObjectItem) (r : ObjectResponse types)
      → IsUsable i.id r
      → Keeps (λ x. one_for x i) (take_response types source i r)
  unfolding take_response
  take_response-Keeps i r (v, b, e) = simp e (record { calm = refl; all_out = λ x. ground arith })

  each_response-Keeps :
      (is : List ObjectItem) (rs : List (ObjectResponse types))
      → AreUsable (map (λ i. i.id) is) rs
      → (length rs ≡ length is) × Keeps (λ x. items_for x is) (each_response types source is rs)
  unfolding each_response
  each_response-Keeps [] [] u = (refl, record { calm = refl; all_out = λ x. refl })
  each_response-Keeps [] (r ∷ rs) u = absurd u
  each_response-Keeps (i ∷ is) [] u = absurd u
  each_response-Keeps (i ∷ is) (r ∷ rs) (u, us) =
      let (l, k) = each_response-Keeps is rs us in
      (
        omega arith,
        and_then-Keeps (λ x. one_for x i) (λ x. items_for x is) (take_response types source i r)
            (each_response types source is rs) (take_response-Keeps i r u) k,
      )

  module _ (answers : AnswersAll) where
    one_by_one-Keeps :
        (is : List ObjectItem) → Keeps (λ x. items_for x is) (one_by_one types source is)
    unfolding one_by_one
    one_by_one-Keeps [] = record { calm = refl; all_out = λ x. refl }
    one_by_one-Keeps (i ∷ is) = elim (Option-cases (source.get_object_with_options i.id)) [
      | inl e ↦ simp e (
          and_then-Keeps (λ x. one_for x i) (λ x. items_for x is) (yield_item err i)
            (one_by_one types source is) (record { calm = refl; all_out = λ x. ground arith })
            (one_by_one-Keeps is))
      | inr (r, e) ↦ simp e (
          and_then-Keeps (λ x. one_for x i) (λ x. items_for x is) (take_response types source i r)
            (one_by_one types source is) (take_response-Keeps i r (answers.alone i.id r e))
            (one_by_one-Keeps is))
    ]

    use_answer-Keeps :
        (is : List ObjectItem) (answer : Option (List (ObjectResponse types)))
        → ((rs : List (ObjectResponse types))
            → answer ≡ some rs
            → AreUsable (map (λ i. i.id) is) rs)
        → Keeps (λ x. items_for x is) (use_answer types source is answer)
    unfolding use_answer
    use_answer-Keeps is none u = one_by_one-Keeps is
    use_answer-Keeps is (some rs) u =
        let (l, k) = each_response-Keeps is rs (u rs refl) in
        let b : (length rs == length is) ≡ true = ground arith in simp b k

    fetch-Keeps : (is : List ObjectItem) → Keeps (λ x. items_for x is) (fetch types source is)
    unfolding fetch
    fetch-Keeps is =
        use_answer-Keeps is (source.multi_get_object_with_options (map (λ i. i.id) is))
          (answers.in_common (map (λ i. i.id) is))

    pub transform_chunk-Keeps :
        (c : List ObjectItem) → Keeps (λ x. items_for x c) (transform_chunk types source c)
    unfolding transform_chunk
    transform_chunk-Keeps c =
        let k = fetch-Keeps (changed c) in
        record {
          calm = k.calm;
          all_out = λ x. omega (
            arith,
            yields_for-append x (map (λ i. (ok, i)) (deletions c))
                (fetch types source (changed c)).items,
            yields_for-deletions x (deletions c),
            items_for-split x c,
            k.all_out x,
          );
        }

    -- If each answer of the RPC client has a response for each object asked for, in order, that
    -- `parse_get_object_response` does not drop, then an object worker does not panic, and of each
    -- checkpoint it passes on as many items as it took, to the mongo workers or for a retry. Calls
    -- of the client may fail.
    pub transform_batched-Keeps :
        (chunks : List (List ObjectItem))
        → Keeps (λ x. total_for x chunks) (transform_batched types source chunks)
    unfolding transform_batched
    transform_batched-Keeps [] = record { calm = refl; all_out = λ x. refl }
    transform_batched-Keeps (c ∷ cs) =
        and_then-Keeps (λ x. items_for x c) (λ x. total_for x cs) (transform_chunk types source c)
          (transform_batched types source cs) (transform_chunk-Keeps c) (transform_batched-Keeps cs)
