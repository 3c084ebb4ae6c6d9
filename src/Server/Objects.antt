-- ===== src/Server/Objects.antt =====
-- server/src/main.rs: parse, which makes the GraphQL object of a stored document, and the part of
-- dynamic_fields that makes a dynamic field of an object. The Base64 library is a parameter.
pub mod Stored
use huracan.Prelude.{
  ℕ, zero, suc, ◌+◌, ◌-◌, ◌*◌, ◌/◌, ◌%◌, ◌^◌, true, false, ◌&&◌, Option, none, some, List, [], ◌∷◌,
  ◌++◌, length, leb, ltb, ◌==◌, if◌then◌else◌,
}
use huracan.Prelude.Int.{ℤ, pos}
use huracan.Prelude.Text.{Text, text, same_text}
use huracan.Server.{
  ◌>>=◌, Bson, document, Fields, MoveFields, no_fields, SuiOwnershipType, by_address, by_object,
  shared, immutable, SuiIndexedObject, SuiDynamicField,
}
use huracan.Server.Documents.{get, get_str, get_document, get_i64, as_unsigned, parse_fields}
use huracan.Server.Documents.Lookups.{get_field}
use huracan.Server.TypeNames.{parse_type}

abbrev pub Ownership : Type 0
Ownership = Option Text × SuiOwnershipType × Option ℕ

-- `unwrap_or_default`
abbrev pub or_zero : Option ℤ → ℤ
or_zero none = pos 0
or_zero (some n) = n

abbrev pub owner_of_document : Fields → Ownership
owner_of_document value = elim (get_str (text "AddressOwner") value) [
  | some addr ↦ (some addr, by_address, none)
  | none ↦ elim (get_str (text "ObjectOwner") value) [
    | some addr ↦ (some addr, by_object, none)
    | none ↦ elim (get_document (text "Shared") value) [
      | some doc ↦ (
        none,
        shared,
        some (as_unsigned 64 (or_zero (get_i64 (text "initial_shared_version") doc))),
      )
      | none ↦ (none, immutable, none)
    ]
  ]
]

-- The `match` on the element type; a missing owner counts as `Bson::Null`.
unfoldable pub parse_owner : Option Bson → Ownership
parse_owner (some (document value)) = owner_of_document value
parse_owner _ = (none, immutable, none)

-- `str::parse` into an u64.
abbrev pub parse_digits : ℕ → Text → Option ℕ
parse_digits n [] = some n
parse_digits n (c ∷ s) =
    let m : ℕ = n * 10 + (c - b'0') in
    elim (leb b'0' c && leb c b'9' && ltb m (2 ^ 64)) [ true ↦ parse_digits m s | false ↦ none ]

abbrev pub unsigned_digits : Text → Option ℕ
unsigned_digits [] = none
unsigned_digits (c ∷ s) = parse_digits 0 (c ∷ s)

unfoldable pub parse_u64 : Text → Option ℕ
parse_u64 [] = none
parse_u64 (c ∷ s) = elim (c == b'+') [ true ↦ unsigned_digits s | false ↦ parse_digits 0 (c ∷ s) ]

-- `.ok().map(|v| v.parse().unwrap())`
abbrev pub parse_rebate : Option Text → Option (Option ℕ)
parse_rebate none = some none
parse_rebate (some s) = do n ← parse_u64 s; some (some n)

abbrev pub zeros : ℕ → List ℕ
zeros zero = []
zeros (suc n) = 0 ∷ zeros n

abbrev pub parse_content : Fields → Option MoveFields
parse_content content = elim (get_str (text "dataType") content) [
  | none ↦ some no_fields
  | some kind ↦ elim (same_text kind (text "moveObject")) [
    | true ↦ parse_fields content
    | false ↦ some no_fields
  ]
]

module _ (decode : Text → Option (List ℕ)) (decoded_len_estimate : ℕ → ℕ) where
  -- `decode_slice` writes into a vector of zeros, and fails if that is too short.
  unfoldable pub parse_bcs : Text → Option (List ℕ)
  parse_bcs bcs_val = do
    bytes ← decode bcs_val
    (let room = decoded_len_estimate (length bcs_val) in
        if leb (length bytes) room then some (bytes ++ zeros (room - length bytes)) else none)

  unfoldable pub parse : Fields → Option SuiIndexedObject
  parse doc = do
    id ← get_str (text "_id") doc
    version ← get_i64 (text "version_") doc
    o ← get_document (text "object") doc
    full_ty ← get_str (text "type") o
    type_ ← parse_type full_ty
    content ← get_document (text "content") o
    fields ← parse_content content
    bcs_doc ← get_document (text "bcs") o
    bcs_val ← get_str (text "bcsBytes") bcs_doc
    bcs ← parse_bcs bcs_val
    digest ← get_str (text "digest") o
    previous ← get_str (text "previousTransaction") o
    rebate ← parse_rebate (get_str (text "storageRebate") o)
    (let (owner, ownership, initial) = parse_owner (get (text "owner") o) in
        some (record {
          id = id;
          version = as_unsigned 64 version;
          digest = digest;
          type_ = type_;
          owner = owner;
          ownership_type = ownership;
          initial_shared_version = initial;
          previous_transaction = previous;
          storage_rebate = rebate;
          fields = fields;
          bcs = bcs;
        }))

abbrev pub first_two : List Text → Option (Text × Text)
first_two (a ∷ b ∷ rest) = some (a, b)
first_two _ = none

unfoldable pub dynamic_field_of : SuiIndexedObject → Option SuiDynamicField
dynamic_field_of o = do
  types ← first_two o.type_.generics
  k ← get_field (text "name") o.fields
  v ← get_field (text "value") o.fields
  some (record {
    id = o.id;
    version = o.version;
    type_ = o.type_.full;
    digest = o.digest;
    previous_transaction = o.previous_transaction;
    storage_rebate = o.storage_rebate;
    bcs = o.bcs;
    key_type = types.0;
    value_type = types.1;
    key = k;
    typed_key = k;
    value = v;
    typed_value = v;
  })

abbrev pub hex_digit : ℕ → ℕ
hex_digit d = if ltb d 10 then b'0' + d else b'a' + (d - 10)

-- The digits of a number below 16 ^ fuel, in front of others.
abbrev pub hex_digits : ℕ → ℕ → Text → Text
hex_digits zero n more = more
hex_digits (suc fuel) n more =
    let digits : Text = hex_digit (n % 16) ∷ more in
    let rest = hex_digits fuel (n / 16) digits in if n / 16 == 0 then digits else rest

-- `format!("{:#x}", self.version)`; a u64 has 16 digits at most.
unfoldable pub version_hex : SuiIndexedObject → Text
version_hex o = text "0x" ++ hex_digits 16 o.version []
