-- ===== src/Tests/Coins.antt =====
-- A coin as it is stored and as the GraphQL server returns it.
use huracan.Prelude.{◌≡◌, refl, none, some, [], ◌∷◌, arith}
use huracan.Prelude.Text.{text}
use huracan.Server.{entry, no_fields, id, by_address, MoveFields, SuiIndexedObject}
use huracan.Server.Documents.RoundTrip.{IsStored}
use huracan.Server.Objects.{parse_u64, parse, version_hex}
use huracan.Server.Objects.Stored.{StoredObject, document_of, IsObject, parse-document_of}
use huracan.Server.Queries.Owners.{address_owner}
use huracan.Tests.Graphql.{coin_type, balance, decode}

abbrev coin_fields : MoveFields
coin_fields = entry (text "balance") balance (entry (text "id") (id (text "0xab")) no_fields)

abbrev coin : StoredObject
coin = record {
  id = text "0xab";
  version = 9;
  package_ = text "0x2";
  module_ = text "coin";
  struct_ = text "Coin";
  generics = text "0x2::sui::SUI" ∷ [];
  owner = address_owner (text "0xa1");
  fields = coin_fields;
  bcs = text "AAE=";
  digest = text "D";
  previous_transaction = text "T";
  rebate = some (text "1200");
}

coin-IsObject : IsObject coin (some 1200)
unfolding IsStored parse_u64
coin-IsObject = record {
  names = (refl, refl, refl);
  terms = refl;
  values = ((omega arith, tt, tt), (refl, tt), (tt, tt, tt));
  version_fits = omega arith;
  owner_fits = tt;
  rebate_is = refl;
}

parse-document_of_example :
    parse decode (λ n. 3) (document_of coin)
    ≡ some (record {
      id = text "0xab";
      version = 9;
      digest = text "D";
      type_ = record {
        full = coin_type;
        package_ = text "0x2";
        module_ = text "coin";
        struct_ = text "Coin";
        generics = text "0x2::sui::SUI" ∷ [];
      };
      owner = some (text "0xa1");
      ownership_type = by_address;
      initial_shared_version = none;
      previous_transaction = text "T";
      storage_rebate = some 1200;
      fields = coin_fields;
      bcs = 0 ∷ 1 ∷ 0 ∷ [];
    })
parse-document_of_example =
    parse-document_of decode (λ n. 3) coin (some 1200) (0 ∷ 1 ∷ []) coin-IsObject refl (omega arith)

abbrev blank : SuiIndexedObject
blank = record {
  id = [];
  version = 0;
  digest = [];
  type_ = record { full = []; package_ = []; module_ = []; struct_ = []; generics = [] };
  owner = none;
  ownership_type = by_address;
  initial_shared_version = none;
  previous_transaction = [];
  storage_rebate = none;
  fields = no_fields;
  bcs = [];
}

hex : version_hex (record blank { version = 41244 }) ≡ text "0xa11c"
unfolding version_hex
hex = refl

hex_zero : version_hex blank ≡ text "0x0"
unfolding version_hex
hex_zero = refl
