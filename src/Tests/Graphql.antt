-- ===== src/Tests/Graphql.antt =====
-- The GraphQL server on a stored coin and on a dynamic field.
use huracan.Prelude.{
  ℕ, zero, suc, ◌≡◌, refl, ◌∙◌, ◌||◌, ap, Bool, true, false, Option, none, some, List, [], ◌∷◌,
  arith,
}
use huracan.Prelude.Int.{pos, negsuc}
use huracan.Prelude.Text.{Text, text, same_text, split_once, split, split_double, drop_last}
use huracan.Server.{
  Bson, document, int32, int64, string, array, Fields, end, field, Items, nil, item, number, struct,
  id, characters, vector, no_values, value, no_fields, entry, by_address, SuiMoveValue,
  SuiIndexedType,
}
use huracan.Server.Documents.{insert, parse_value}
use huracan.Server.Documents.Lookups.{AllParse}
use huracan.Server.Documents.RoundTrip.{render, IsStored, parse_value-render}
use huracan.Server.TypeNames.{parse_type}
use huracan.Server.TypeNames.RoundTrip.{parse_type-print_type}
use huracan.Server.Objects.{parse, parse_owner, parse_bcs, parse_u64}
use huracan.Server.Queries.{
  owner_filter, ObjectArgsInput, find, objects_query, objects, refused, invalid_query, strings,
}
use huracan.Server.Queries.Owners.{
  address_owner, stored_owner, is_one_of, in_owner, IsMatching, owner_filter-parse_owner,
}

abbrev pub coin_type : Text
coin_type = text "0x2::coin::Coin<0x2::sui::SUI>"

parse_type-print_type_example :
    parse_type (text "0x2::dynamic_field::Field<u64, 0x2::coin::Coin<0x2::sui::SUI>>")
    ≡ some (record {
      full = text "0x2::dynamic_field::Field<u64, 0x2::coin::Coin<0x2::sui::SUI>>";
      package_ = text "0x2";
      module_ = text "dynamic_field";
      struct_ = text "Field";
      generics = text "u64" ∷ text "0x2::coin::Coin<0x2::sui::SUI>" ∷ [];
    })
parse_type-print_type_example =
    parse_type-print_type (text "0x2") (text "dynamic_field") (text "Field")
      (text "u64" ∷ text "0x2::coin::Coin<0x2::sui::SUI>" ∷ []) refl refl refl refl

-- The type argument with two arguments is cut at its comma.
abbrev generics_of : Option SuiIndexedType → List Text
generics_of none = []
generics_of (some t) = t.generics

nested_generics :
    generics_of (parse_type (text "0x2::dynamic_field::Field<0x5::m::Pair<u8, u64>, bool>"))
    ≡ text "0x5::m::Pair<u8" ∷ text "u64>" ∷ text "bool" ∷ []
unfolding parse_type split_once split split_double drop_last
nested_generics = refl

abbrev pub balance : SuiMoveValue
balance = struct (text "0x2::balance::Balance") (entry (text "value") (number 70) no_fields)

abbrev coin : SuiMoveValue
coin =
    struct coin_type
      (entry (text "balance") balance (entry (text "id") (id (text "0xab")) no_fields))

coin-IsStored : IsStored coin
unfolding IsStored
coin-IsStored = ((omega arith, tt, tt), (refl, tt), (tt, tt, tt))

parse_value-render_example : parse_value (render coin) ≡ some coin
parse_value-render_example = parse_value-render coin coin-IsStored

-- A negative number, and one of more than 32 bits.
wrapped :
    parse_value (array (item (int32 (negsuc 0)) (item (int64 (pos 4294967301)) nil)))
    ≡ some (vector (value (number 4294967295) (value (number 5) no_values)))
unfolding parse_value
wrapped = refl

abbrev entries : Fields
entries = field (text "id") (string (text "x")) (field (text "balance") (int64 (pos 3)) end)

abbrev content : Fields
content =
    field (text "dataType") (string (text "moveObject"))
      (field (text "fields") (document entries) end)

entries-AllParse : AllParse entries
unfolding parse_value
entries-AllParse = ((characters (text "x"), refl), ((number 3, refl), tt))

abbrev object : Fields
object = field (text "type") (string coin_type) (
    field (text "owner") (stored_owner (address_owner (text "0xa1"))) (
      field (text "content") (document content) (
        field (text "bcs") (document (field (text "bcsBytes") (string (text "AAE=")) end)) (
          field (text "digest") (string (text "D")) (
            field (text "previousTransaction") (string (text "T"))
              (field (text "storageRebate") (string (text "1200")) end))))))

abbrev stored : Fields
stored =
    field (text "_id") (string (text "0xab"))
      (field (text "version_") (int64 (pos 9)) (field (text "object") (document object) end))

-- A decoder that takes the text "AAE=" only, for the bytes 0 and 1.
abbrev pub decode : Text → Option (List ℕ)
decode s = elim (same_text s (text "AAE=")) [ true ↦ some (0 ∷ 1 ∷ []) | false ↦ none ]

-- The estimate leaves a zero at the end.
coin_parsed :
    parse decode (λ n. 3) stored
    ≡ some (record {
      id = text "0xab";
      version = 9;
      digest = text "D";
      type_ = record {
        full = coin_type;
        package_ = text "0x2";
        module_ = text "coin";
        struct_ = text "Coin";
        generics = text "0x2::sui::SUI" ∷ [];
      };
      owner = some (text "0xa1");
      ownership_type = by_address;
      initial_shared_version = none;
      previous_transaction = text "T";
      storage_rebate = some 1200;
      fields =
          entry (text "balance") (number 3) (entry (text "id") (characters (text "x")) no_fields);
      bcs = 0 ∷ 1 ∷ 0 ∷ [];
    })
unfolding parse parse_owner parse_bcs parse_type split_once split split_double drop_last parse_value
    insert parse_u64
coin_parsed = refl

-- Filters as MongoDB evaluates them, as far as the owner needs.
abbrev has_text : Bson → Items → Bool
has_text b nil = false
has_text (string s) (item (string t) vs) = same_text s t || has_text (string s) vs
has_text b (item v vs) = has_text b vs

abbrev drop : ℕ → Text → Text
drop zero s = s
drop (suc n) [] = []
drop (suc n) (c ∷ s) = drop n s

abbrev at_path : Option Bson → Items → Bool
at_path none vs = false
at_path (some b) vs = has_text b vs

abbrev matches : Fields → Fields → Bool
matches (field path (array (item (document f) (item (document g) nil))) end) doc =
    matches f doc || matches g doc
matches (field path (document (field op (array vs) end)) end) doc =
    at_path (in_owner (drop 13 path) doc) vs
matches _ doc = false

has_text-strings : (a : Text) (ts : List Text) → has_text (string a) (strings ts) ≡ is_one_of a ts
has_text-strings a [] = refl
has_text-strings a (t ∷ ts) = ap (λ b. same_text a t || b) (has_text-strings a ts)

matching : IsMatching matches
matching = record {
  or = λ f g doc. refl;
  in_text =
      λ key a values doc e. ap (λ o. at_path o (strings values)) e ∙ has_text-strings a values;
  in_nothing = λ key values doc e. ap (λ o. at_path o (strings values)) e;
}

owner_filter-parse_owner_example :
    matches (owner_filter (text "0xff" ∷ text "0xa1" ∷ [])) stored ≡ true
unfolding parse_owner
owner_filter-parse_owner_example =
    owner_filter-parse_owner matches matching stored object (address_owner (text "0xa1"))
      (text "0xff" ∷ text "0xa1" ∷ []) refl refl

abbrev no_args : ObjectArgsInput
no_args = record {
  ids = none;
  owner = none;
  owners = none;
  type_ = none;
  types = none;
  limit = some 10;
  skip = none;
  dynamic_field = none;
}

invalid :
    objects decode (λ n. 3) (text "objects") (λ q. none) no_args ≡ some (refused invalid_query)
unfolding objects objects_query
invalid = refl

-- An owner comes before a type.
owner_first :
    objects_query
      (text "objects")
      (record no_args { owner = some (text "0xa1"); type_ = some (text "0x2") })
    ≡ some (find (owner_filter (text "0xa1" ∷ [])) (some (pos 10)) none)
unfolding objects_query
owner_first = refl
