-- ===== src/Client/Objects.antt =====
-- main/src/client.rs: `parse_get_object_response`, and main/src/utils.rs:
-- `check_obj_type_from_string_vec`. The object types of sui_types with their parser and equality, and
-- the BSON encoding of an object, are parameters.
pub mod Policy
use Prim.Native.String.{String}
use huracan.Prelude.{
  ℕ, Bool, true, false, Option, none, some, List, [], ◌∷◌, not, ◌&&◌, if◌then◌else◌,
}
use huracan.Conf.{Whitelist, Blacklist}

-- `ObjectType` with `FromStr` (`none` is an error) and the derived `==`.
pub record ObjectTypes : Type 1 where
  pub ObjectType : Type 0
  pub from_str : String → Option ObjectType
  pub same : ObjectType → ObjectType → Bool

-- `SuiObjectResponseError`.
pub data ResponseError : Type 0 where
  deleted : (object_id version : ℕ) → ResponseError
  not_exists : (object_id : ℕ) → ResponseError
  unknown : ResponseError
  display_error : ResponseError
  dynamic_field_not_found : (parent_object_id : ℕ) → ResponseError

-- A point of the `ingest_error` measurement; without an object its id is written "unknown".
pub record IngestError : Type 0 where
  pub object_id : Option ℕ
  pub error_type : String

-- The function returns `Some` of a version and bytes, returns `None`, or panics in an `unwrap`.
pub data Parsed : Type 0 where
  indexed : (version : ℕ) → (bytes : List ℕ) → Parsed
  dropped : Parsed
  panicked : Parsed

module _ (types : ObjectTypes) where
  open types use {ObjectType, from_str, same}

  -- `SuiObjectData`: its version, `object_type()` (`none` is an error), and its BSON document.
  pub record ObjectData : Type 0 where
    pub version : ℕ
    pub object_type : Option ObjectType
    pub bson : List ℕ

  pub record ObjectResponse : Type 0 where
    pub error : Option ResponseError
    pub object : Option ObjectData  -- `data` in the source

  -- `none` is a panic on a string that is no object type.
  unfoldable pub check_obj_type_from_string_vec : ObjectType → List String → Option Bool
  check_obj_type_from_string_vec input [] = some false
  check_obj_type_from_string_vec input (item ∷ items) =
      let rest = check_obj_type_from_string_vec input items in
      elim (from_str item) [
        | none ↦ none
        | some item_type ↦ if same input item_type then some true else rest
      ]

  -- The metric of an error in the response.
  unfoldable pub error_metric : ResponseError → IngestError
  error_metric (deleted object_id version) = record {
    object_id = some object_id;
    error_type = "sui_object_deleted";
  }
  error_metric (not_exists object_id) = record {
    object_id = some object_id;
    error_type = "sui_object_not_exists";
  }
  error_metric unknown = record { object_id = none; error_type = "sui_object_unknown" }
  error_metric display_error = record { object_id = none; error_type = "sui_object_display_error" }
  error_metric (dynamic_field_not_found parent_object_id) = record {
    object_id = none;
    error_type = "sui_object_dynamic_field_not_found";
  }

  -- A test of a package list: false unless the list is there and its switch is on.
  abbrev pub check_packages : Bool → Option (List String) → ObjectType → Option Bool
  check_packages true (some packages) obj_type = check_obj_type_from_string_vec obj_type packages
  check_packages enabled packages obj_type = some false

  -- The end of the function, which an object that is filtered out reaches too.
  abbrev pub give_up : ℕ → List IngestError × Parsed
  give_up id =
      (record { object_id = some id; error_type = "sui_object_no_data_and_no_error" } ∷ [], dropped)

  -- The third test: everything but the blacklisted types.
  unfoldable pub filter_blacklist :
      Blacklist → ℕ → ObjectData → ObjectType → List IngestError × Parsed
  filter_blacklist bl id obj obj_type = elim bl.packages [
    | none ↦ give_up id
    | some packages ↦
        if bl.enabled
        then elim (check_obj_type_from_string_vec obj_type packages) [
          | none ↦ ([], panicked)
          | some listed ↦ if listed then give_up id else ([], indexed obj.version obj.bson)
        ]
        else give_up id
  ]

  -- The three tests on an object, in their order.
  unfoldable pub filter_object :
      Whitelist → Blacklist → ℕ → ObjectData → ObjectType → List IngestError × Parsed
  unfolding filter_blacklist
  filter_object wl bl id obj obj_type =
      if not wl.enabled && not bl.enabled
      then ([], indexed obj.version obj.bson)
      else elim (check_packages wl.enabled wl.packages obj_type) [
        | none ↦ ([], panicked)
        | some listed ↦
            if listed
            then ([], indexed obj.version obj.bson)
            else filter_blacklist bl id obj obj_type
      ]

  -- The metrics that are written, and the result. `object_type().ok()?` returns without a metric.
  unfoldable pub parse_get_object_response :
      Whitelist → Blacklist → ℕ → ObjectResponse → List IngestError × Parsed
  unfolding error_metric filter_object
  parse_get_object_response wl bl id res = elim res.error [
    | some e ↦ (error_metric e ∷ [], dropped)
    | none ↦ elim res.object [
      | none ↦ give_up id
      | some obj ↦ elim obj.object_type [
        | none ↦ ([], dropped)
        | some obj_type ↦ filter_object wl bl id obj obj_type
      ]
    ]
  ]
