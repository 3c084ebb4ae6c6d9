-- ===== src/Client/Objects/Policy.antt =====
-- Which objects are indexed, by the lists of the configuration.
use Prim.Native.String.{String}
use huracan.Prelude.{
  ℕ, ◌≡◌, refl, inl, inr, Bool, true, false, not, ◌||◌, Option, none, some, List, [], ◌∷◌,
  if◌then◌else◌, Option-cases, arith,
}
use huracan.Conf.{Whitelist, Blacklist}
use huracan.Client.Objects.{
  ObjectTypes, ObjectData, ObjectResponse, IngestError, Parsed, indexed,
  check_obj_type_from_string_vec, give_up, filter_object, parse_get_object_response,
}

module _ (types : ObjectTypes) where
  open types use {ObjectType, from_str, same}

  -- Every string of a list is an object type.
  abbrev pub AllParse : List String → Type 0
  AllParse [] = Unit {0}
  AllParse (s ∷ ss) = ((t : ObjectType) × (from_str s ≡ some t)) × AllParse ss

  -- A type is the meaning of one of the strings.
  abbrev pub is_listed : ObjectType → List String → Bool
  is_listed t [] = false
  is_listed t (s ∷ ss) = (elim (from_str s) [ none ↦ false | some u ↦ same t u ]) || is_listed t ss

  pub check_obj_type_from_string_vec_lem :
      (t : ObjectType) (ss : List String)
      → AllParse ss
      → check_obj_type_from_string_vec types t ss ≡ some (is_listed t ss)
  unfolding check_obj_type_from_string_vec
  check_obj_type_from_string_vec_lem t [] h = refl
  check_obj_type_from_string_vec_lem t (s ∷ ss) ((u, e), h) =
      ground (arith, check_obj_type_from_string_vec_lem t ss h)

  abbrev pub ParseIfAny : Option (List String) → Type 0
  ParseIfAny none = Unit {0}
  ParseIfAny (some ss) = AllParse ss

  -- Whether the two lists let an object of a type in.
  abbrev pub admits : Bool → Option (List String) → Bool → Option (List String) → ObjectType → Bool
  admits false white false black t = true
  admits true none false black t = false
  admits true (some ws) false black t = is_listed t ws
  admits false white true none t = false
  admits false white true (some bs) t = not (is_listed t bs)
  admits true none true none t = false
  admits true (some ws) true none t = is_listed t ws
  admits true none true (some bs) t = not (is_listed t bs)
  admits true (some ws) true (some bs) t = is_listed t ws || not (is_listed t bs)

  -- What the object ends as, if `ok` says that it is to be indexed.
  abbrev pub outcome : Bool → ℕ → ObjectData types → List IngestError × Parsed
  outcome ok id obj = if ok then ([], indexed obj.version obj.bson) else give_up types id

  filter_table :
      (we : Bool) (wp : Option (List String)) (be : Bool) (bp : Option (List String)) (id : ℕ)
      (obj : ObjectData types) (t : ObjectType)
      → ParseIfAny wp
      → ParseIfAny bp
      → filter_object types
          (record { enabled = we; packages = wp })
          (record { enabled = be; packages = bp })
          id
          obj
          t
        ≡ outcome (admits we wp be bp t) id obj
  unfolding filter_object
  filter_table false none false none id obj t p q = refl
  filter_table false none false (some bs) id obj t p q = refl
  filter_table false (some ws) false none id obj t p q = refl
  filter_table false (some ws) false (some bs) id obj t p q = refl
  filter_table true none false none id obj t p q = refl
  filter_table true none false (some bs) id obj t p q = refl
  filter_table true (some ws) false none id obj t p q =
      ground (arith, check_obj_type_from_string_vec_lem t ws p)
  filter_table true (some ws) false (some bs) id obj t p q =
      ground (arith, check_obj_type_from_string_vec_lem t ws p)
  filter_table false none true none id obj t p q = refl
  filter_table false (some ws) true none id obj t p q = refl
  filter_table false none true (some bs) id obj t p q =
      ground (arith, check_obj_type_from_string_vec_lem t bs q)
  filter_table false (some ws) true (some bs) id obj t p q =
      ground (arith, check_obj_type_from_string_vec_lem t bs q)
  filter_table true none true none id obj t p q = refl
  filter_table true (some ws) true none id obj t p q =
      ground (arith, check_obj_type_from_string_vec_lem t ws p)
  filter_table true none true (some bs) id obj t p q =
      ground (arith, check_obj_type_from_string_vec_lem t bs q)
  filter_table true (some ws) true (some bs) id obj t p q =
      ground (
        arith,
        check_obj_type_from_string_vec_lem t ws p,
        check_obj_type_from_string_vec_lem t bs q,
      )

  module _ (wl : Whitelist) (bl : Blacklist) (id : ℕ) (res : ObjectResponse types) where
    -- An object that comes with its type is indexed, without a metric, exactly when the lists admit
    -- its type: with both off always; with one on, if it is on the whitelist, or if there is a
    -- blacklist and it is not on it; with both on, if either of the two holds. Else one metric is
    -- written, that of a response with neither object nor error. The strings of the lists have to
    -- be object types.
    pub parse_get_object_response_policy :
        (obj : ObjectData types) (t : ObjectType)
        → ParseIfAny wl.packages
        → ParseIfAny bl.packages
        → res.error ≡ none
        → res.object ≡ some obj
        → obj.object_type ≡ some t
        → parse_get_object_response types wl bl id res
          ≡ outcome (admits wl.enabled wl.packages bl.enabled bl.packages t) id obj
    unfolding parse_get_object_response
    parse_get_object_response_policy obj t p q e o k =
        ground (arith, filter_table wl.enabled wl.packages bl.enabled bl.packages id obj t p q)

    -- Whatever the lists are, also if they hold strings that are no object types: a result holds the
    -- version and the bytes of the object of a response without an error, and comes with no metric.
    parse_get_object_response_indexed :
        (version : ℕ) (bytes : List ℕ)
        → (parse_get_object_response types wl bl id res).1 ≡ indexed version bytes
        → (res.error ≡ none)
          × ((obj : ObjectData types) × (res.object ≡ some obj)
              × (version ≡ obj.version)
              × (bytes ≡ obj.bson))
          × ((parse_get_object_response types wl bl id res).0 ≡ [])
    unfolding parse_get_object_response
    parse_get_object_response_indexed version bytes h = elim (Option-cases res.error) [
      | inr (e, z) ↦ ground arith
      | inl z ↦ elim (Option-cases res.object) [
        | inl y ↦ ground arith
        | inr (obj, y) ↦ (z, (obj, y, ground arith, ground arith), ground arith)
      ]
    ]
