-- ===== src/Server/Queries.antt =====
-- server/src/main.rs: the queries of QueryRoot and of dynamic_fields, and what they return. MongoDB is
-- given by its answers: the documents found, or nothing for an error.
pub mod Owners
use huracan.Prelude.{ℕ, Bool, true, false, Option, none, some, List, [], ◌∷◌, ◌++◌, map}
use huracan.Prelude.Int.{ℤ, to_i64}
use huracan.Prelude.Text.{Text, text}
use huracan.Server.{
  ◌>>=◌, Bson, document, int32, boolean, string, array, Fields, end, field, Items, nil, item,
  SuiIndexedObject, SuiDynamicField,
}
use huracan.Server.Objects.{parse, dynamic_field_of}

pub record DynamicFieldTypeInput : Type 0 where
  pub key_type : Text
  pub value_type : Text

pub record DynamicFieldInnerInput : Type 0 where
  pub key : Option Text
  pub value : Text

pub record DynamicFieldFieldFilterInput : Type 0 where
  pub field_type : DynamicFieldTypeInput
  pub value : DynamicFieldInnerInput
  pub key : Option DynamicFieldInnerInput

pub record ObjectArgsInput : Type 0 where
  pub ids : Option (List Text)
  pub owner : Option Text
  pub owners : Option (List Text)
  pub type_ : Option Text
  pub types : Option (List Text)
  pub limit : Option ℕ
  pub skip : Option ℕ
  pub dynamic_field : Option DynamicFieldFieldFilterInput

pub data Query : Type 0 where
  find : Fields → Option ℤ → Option ℕ → Query
  -- With `allow_disk_use`.
  aggregate : Items → Query

abbrev pub single : Text → Bson → Fields
single key v = field key v end

abbrev pub strings : List Text → Items
strings [] = nil
strings (s ∷ ss) = item (string s) (strings ss)

-- `doc! {path: doc! {"$in": values}}`
abbrev pub in_filter : Text → List Text → Fields
in_filter path values = single path (document (single (text "$in") (array (strings values))))

abbrev pub any_of : Fields → Fields → Fields
any_of a b = single (text "$or") (array (item (document a) (item (document b) nil)))

abbrev pub owner_filter : List Text → Fields
owner_filter owners =
    any_of (in_filter (text "object.owner.AddressOwner") owners)
      (in_filter (text "object.owner.ObjectOwner") owners)

abbrev pub regex_filter : Text → Fields
regex_filter pattern_ =
    single (text "object.type") (document (single (text "$regex") (string pattern_)))

abbrev pub join : Text → List Text → Text
join sep [] = []
join sep (s ∷ []) = s
join sep (s ∷ t ∷ ss) = s ++ sep ++ join sep (t ∷ ss)

abbrev pub prefix_pattern : Text → Text
prefix_pattern ty = b'^' ∷ ty

abbrev pub key_path : Option Text → Text
key_path none = text "object.content.fields.name"
key_path (some k) = text "object.content.fields.name.fields." ++ k

abbrev pub value_path : Option Text → Text
value_path none = text "object.content.fields.value"
value_path (some k) = text "object.content.fields.value.fields." ++ k

abbrev pub and_also : Fields → Fields → Fields
and_also end g = g
and_also (field k v f) g = field k v (and_also f g)

-- The filter on the key, if there is one.
abbrev pub key_filter : Option DynamicFieldInnerInput → Fields
key_filter none = end
key_filter (some inner) = in_filter (key_path inner.key) (inner.value ∷ [])

abbrev pub match_stage : DynamicFieldFieldFilterInput → Fields
match_stage input =
    let object_type : Text =
      text "0x2::dynamic_field::Field<"
      ++ input.field_type.key_type
      ++ text ", "
      ++ input.field_type.value_type
      ++ text ">" in
    single (text "$match") (
      document (
        and_also (in_filter (text "object.type") (object_type ∷ [])) (
          and_also (key_filter input.key)
            (in_filter (value_path input.value.key) (input.value.value ∷ [])))))

-- From the dynamic field to the object that owns it.
abbrev pub lookup_stage : Text → Fields
lookup_stage name =
    let equal : Fields =
      single (text "$eq") (array (strings (text "$_id" ∷ text "$$ownerObjectId" ∷ []))) in
    single (text "$lookup") (
      document (
        field (text "from") (string name) (
          field (text "let")
            (document (single (text "ownerObjectId") (string (text "$object.owner.ObjectOwner"))))
            (field (text "pipeline")
              (array (
                item
                  (document
                    (single (text "$match") (document (single (text "$expr") (document equal)))))
                  nil))
              (field (text "as") (string (text "object")) end)))))

abbrev pub field_pipeline : Text → DynamicFieldFieldFilterInput → Items
field_pipeline name input = item (document (match_stage input)) (
    item (document (lookup_stage name)) (
      item (document (single (text "$unwind") (string (text "$object"))))
        (item (document (single (text "$replaceWith") (string (text "$object")))) nil)))

module _ (name : Text) (args : ObjectArgsInput) where
  abbrev pub find_all : Fields → Option Query
  find_all filter =
      some (find filter (elim args.limit [ none ↦ none | some l ↦ some (to_i64 l) ]) args.skip)

  abbrev pub by_dynamic_field : Option DynamicFieldFieldFilterInput → Option Query
  by_dynamic_field none = none
  by_dynamic_field (some input) = some (aggregate (field_pipeline name input))

  abbrev pub by_types : Option (List Text) → Option Query
  by_types none = by_dynamic_field args.dynamic_field
  by_types (some types) = find_all (regex_filter (join (text "|") (map prefix_pattern types)))

  abbrev pub by_type : Option Text → Option Query
  by_type none = by_types args.types
  by_type (some ty) = find_all (regex_filter (prefix_pattern ty))

  abbrev pub by_owners : Option (List Text) → Option Query
  by_owners none = by_type args.type_
  by_owners (some owners) = find_all (owner_filter owners)

  abbrev pub by_owner : Option Text → Option Query
  by_owner none = by_owners args.owners
  by_owner (some owner) = find_all (owner_filter (owner ∷ []))

  -- The first of the arguments that is given decides; `InvalidQuery` if there is none.
  unfoldable pub objects_query : Option Query
  objects_query = elim args.ids [
    | some ids ↦ find_all (in_filter (text "_id") ids)
    | none ↦ by_owner args.owner
  ]

pub data QueryError : Type 0 where
  db_error invalid_query : QueryError

pub data Response : Type 0 where
  found : List SuiIndexedObject → Response
  refused : QueryError → Response

pub data SingleResponse : Type 0 where
  one : Option SuiIndexedObject → SingleResponse
  no_answer : QueryError → SingleResponse

abbrev pub collect {ℓ κ} : {A : Type ℓ} {B : Type κ} → (A → Option B) → List A → Option (List B)
collect f [] = some []
collect f (x ∷ xs) = do y ← f x; ys ← collect f xs; some (y ∷ ys)

module _ (decode : Text → Option (List ℕ)) (decoded_len_estimate : ℕ → ℕ) (name : Text)
    (db : Query → Option (List Fields)) where
  abbrev pub answer : Option (List Fields) → Option Response
  answer none = some (refused db_error)
  answer (some docs) = do os ← collect (parse decode decoded_len_estimate) docs; some (found os)

  unfoldable pub objects : ObjectArgsInput → Option Response
  objects args = elim (objects_query name args) [
    | none ↦ some (refused invalid_query)
    | some q ↦ answer (db q)
  ]

  -- The answer of `find_one` for the id.
  unfoldable pub object : (Fields → Option (Option Fields)) → Text → Option SingleResponse
  object find_one id = elim (find_one (single (text "_id") (string id))) [
    | none ↦ some (no_answer db_error)
    | some none ↦ some (one none)
    | some (some doc) ↦ do o ← parse decode decoded_len_estimate doc; some (one (some o))
  ]

  -- An error of the database panics here.
  unfoldable pub dynamic_fields :
      SuiIndexedObject → Option ℕ → Option ℕ → Option (List SuiDynamicField)
  dynamic_fields o limit skip = do
    docs ← db (
        find
          (field (text "object.owner.ObjectOwner") (string o.id)
            (regex_filter (text "^0x2::dynamic_field::Field<")))
          (elim limit [ none ↦ none | some l ↦ some (to_i64 l) ]) skip)
    collect (λ doc. parse decode decoded_len_estimate doc >>= dynamic_field_of) docs
