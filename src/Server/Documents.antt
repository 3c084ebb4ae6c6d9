-- ===== src/Server/Documents.antt =====
-- server/src/main.rs: parse_value and parse_fields.
pub mod Lookups
pub mod RoundTrip
use huracan.Prelude.{
  ℕ, suc, ◌-◌, ◌%◌, ◌^◌, Bool, true, false, ◌&&◌, Option, none, some, List, if◌then◌else◌, ◌==◌,
}
use huracan.Prelude.Int.{ℤ, pos, negsuc}
use huracan.Prelude.Text.{Text, text, same_text, less_text}
use huracan.Server.{
  ◌>>=◌, Bson, document, int32, int64, boolean, string, array, null, other_value, Fields, end,
  field, Items, nil, item, SuiMoveValue, number, truth, vector, characters, id, struct, nothing,
  MoveValues, no_values, value, MoveFields, no_fields, entry,
}

-- `Document::get` and its variants, where the value is of the given kind.
abbrev pub get : Text → Fields → Option Bson
get key end = none
get key (field k v rest) = if same_text k key then some v else get key rest

abbrev pub as_document : Bson → Option Fields
as_document (document fields) = some fields
as_document _ = none

abbrev pub as_str : Bson → Option Text
as_str (string s) = some s
as_str _ = none

abbrev pub as_i64 : Bson → Option ℤ
as_i64 (int64 n) = some n
as_i64 _ = none

abbrev pub get_str : Text → Fields → Option Text
get_str key fields = get key fields >>= as_str

abbrev pub get_document : Text → Fields → Option Fields
get_document key fields = get key fields >>= as_document

abbrev pub get_i64 : Text → Fields → Option ℤ
get_i64 key fields = get key fields >>= as_i64

abbrev pub contains_key : Text → Fields → Bool
contains_key key fields = elim (get key fields) [ none ↦ false | some v ↦ true ]

abbrev pub count : Fields → ℕ
count end = 0
count (field k v rest) = suc (count rest)

-- `as u32` and `as u64` of a signed number.
abbrev pub as_unsigned : ℕ → ℤ → ℕ
as_unsigned w (pos n) = n % 2 ^ w
as_unsigned w (negsuc n) = 2 ^ w - 1 - n % 2 ^ w

-- `BTreeMap::insert`.
unfoldable pub insert : Text → SuiMoveValue → MoveFields → MoveFields
insert key v no_fields = entry key v no_fields
insert key v (entry k w rest) =
    let further = insert key v rest in
    if same_text key k
    then entry key v rest
    else if less_text key k
    then entry key v (entry k w rest)
    else entry k w further

unfoldable mutual
  unfolding insert

  pub parse_value : Bson → Option SuiMoveValue
  parse_value (document doc) =
      elim (contains_key (text "type") doc && contains_key (text "fields") doc) [
        | true ↦ do
          type_ ← get_str (text "type") doc
          fields ← parse_fields doc
          some (struct type_ fields)
        | false ↦ elim (contains_key (text "id") doc && count doc == 1) [
          | true ↦ do i ← get_str (text "id") doc; some (id i)
          | false ↦ none
        ]
      ]
  parse_value (int32 n) = some (number (as_unsigned 32 n))
  parse_value (int64 n) = some (number (as_unsigned 32 n))
  parse_value (boolean b) = some (truth b)
  parse_value (string s) = some (characters s)
  parse_value (array vs) = do values ← parse_values vs; some (vector values)
  parse_value null = some nothing
  parse_value other_value = none

  pub parse_values : Items → Option MoveValues
  parse_values nil = some no_values
  parse_values (item v vs) = do w ← parse_value v; ws ← parse_values vs; some (value w ws)

  -- The entries of the document at the key `fields`.
  pub parse_fields : Fields → Option MoveFields
  parse_fields end = none
  parse_fields (field k v rest) = elim (same_text k (text "fields")) [
    | true ↦ parse_document v
    | false ↦ parse_fields rest
  ]

  pub parse_document : Bson → Option MoveFields
  parse_document (document fields) = parse_entries fields no_fields
  parse_document _ = none

  -- `collect` inserts one entry after another.
  pub parse_entries : Fields → MoveFields → Option MoveFields
  parse_entries end map = some map
  parse_entries (field k v rest) map = do w ← parse_value v; parse_entries rest (insert k w map)
