-- ===== src/Server/Objects/Stored.antt =====
-- server/src/main.rs: an object as the indexer stores it, and what parse makes of the document.
use huracan.Prelude.{
  ℕ, ◌-◌, ◌%◌, ◌^◌, ◌≤◌, ◌<◌, ◌≡◌, refl, ◌∙◌, ap, true, Option, none, some, List, ◌++◌, length, leb,
  arith,
}
use huracan.Prelude.Int.{pos}
use huracan.Prelude.Text.{Text, text}
use huracan.Server.{
  document, int64, string, Fields, end, field, MoveFields, by_address, by_object, shared, immutable,
}
use huracan.Server.Documents.{get_str}
use huracan.Server.Documents.Lookups.{parse_fields-document}
use huracan.Server.Documents.RoundTrip.{render_fields, FieldsAreStored, parse_entries-render_fields}
use huracan.Server.TypeNames.RoundTrip.{print_type, is_name, are_terms, parse_type-print_type}
use huracan.Server.Objects.{
  Ownership, parse_owner, parse_rebate, zeros, parse_bcs, parse_content, parse,
}
use huracan.Server.Queries.Owners.{
  Owner, address_owner, object_owner, shared_from, no_owner, stored_owner,
}

pub record StoredObject : Type 0 where
  pub id : Text
  pub version : ℕ
  pub package_ : Text
  pub module_ : Text
  pub struct_ : Text
  pub generics : List Text
  pub owner : Owner
  pub fields : MoveFields
  pub bcs : Text
  pub digest : Text
  pub previous_transaction : Text
  pub rebate : Option Text

abbrev pub type_of : StoredObject → Text
type_of s = print_type s.package_ s.module_ s.struct_ s.generics

abbrev pub rebate_field : Option Text → Fields
rebate_field none = end
rebate_field (some t) = field (text "storageRebate") (string t) end

abbrev pub content_of : StoredObject → Fields
content_of s =
    field (text "dataType") (string (text "moveObject"))
      (field (text "fields") (document (render_fields s.fields)) end)

abbrev pub object_of : StoredObject → Fields
object_of s = field (text "type") (string (type_of s)) (
    field (text "owner") (stored_owner s.owner) (
      field (text "content") (document (content_of s)) (
        field (text "bcs") (document (field (text "bcsBytes") (string s.bcs) end)) (
          field (text "digest") (string s.digest) (
            field (text "previousTransaction") (string s.previous_transaction)
              (rebate_field s.rebate))))))

abbrev pub document_of : StoredObject → Fields
document_of s = field (text "_id") (string s.id) (
    field (text "version_") (int64 (pos s.version))
      (field (text "object") (document (object_of s)) end))

abbrev pub ownership_of : Owner → Ownership
ownership_of (address_owner a) = (some a, by_address, none)
ownership_of (object_owner a) = (some a, by_object, none)
ownership_of (shared_from n) = (none, shared, some n)
ownership_of no_owner = (none, immutable, none)

-- A version from which the object is shared has 63 bits.
abbrev pub FitsOwner : Owner → Type 0
FitsOwner (shared_from n) = n < 2 ^ 63
FitsOwner _ = Unit

parse_owner-stored_owner :
    (o : Owner) → FitsOwner o → parse_owner (some (stored_owner o)) ≡ ownership_of o
unfolding parse_owner
parse_owner-stored_owner (address_owner a) h = refl
parse_owner-stored_owner (object_owner a) h = refl
parse_owner-stored_owner (shared_from n) h = ap (λ (m : ℕ). (none, shared, some m)) (omega arith)
parse_owner-stored_owner no_owner h = refl

-- What can be stored: names and type arguments that print without ambiguity, Move values, and numbers
-- of 63 bits; `rebate` is the number in the text, if there is one.
pub record IsObject (s : StoredObject) (rebate : Option ℕ) : Type 0 where
  pub names : (is_name s.package_ ≡ true) × (is_name s.module_ ≡ true) × (is_name s.struct_ ≡ true)
  pub terms : are_terms s.generics ≡ true
  pub values : FieldsAreStored s.fields
  pub version_fits : s.version < 2 ^ 63
  pub owner_fits : FitsOwner s.owner
  pub rebate_is : parse_rebate s.rebate ≡ some rebate

parse_content-stored :
    (s : StoredObject) → FieldsAreStored s.fields → parse_content (content_of s) ≡ some s.fields
parse_content-stored s h =
    parse_fields-document (content_of s) (render_fields s.fields) refl
    ∙ parse_entries-render_fields s.fields h

rebate_of_object : (r : Option Text) → get_str (text "storageRebate") (rebate_field r) ≡ r
rebate_of_object none = refl
rebate_of_object (some t) = refl

module _ (decode : Text → Option (List ℕ)) (decoded_len_estimate : ℕ → ℕ) where
  parse_bcs_lem :
      (t : Text) (bytes : List ℕ)
      → decode t ≡ some bytes
      → length bytes ≤ decoded_len_estimate (length t)
      → parse_bcs decode decoded_len_estimate t
        ≡ some (bytes ++ zeros (decoded_len_estimate (length t) - length bytes))
  unfolding parse_bcs
  parse_bcs_lem t bytes h l =
      let fits : leb (length bytes) (decoded_len_estimate (length t)) ≡ true = ground arith in
      rw (h, fits) refl

  -- Of a stored object with its BCS bytes in Base64, parse returns all parts as they are: the type, the
  -- owner, the fields, the versions and the rebate; but zeros follow the bytes where the decoder
  -- estimates more than it decodes. Names and type arguments are such that they print without ambiguity,
  -- Move values have no addresses and numbers of 32 bits, and versions have 63 bits.
  pub parse-document_of :
      (s : StoredObject) (rebate : Option ℕ) (bytes : List ℕ)
      → IsObject s rebate
      → decode s.bcs ≡ some bytes
      → length bytes ≤ decoded_len_estimate (length s.bcs)
      → parse decode decoded_len_estimate (document_of s)
        ≡ some (record {
          id = s.id;
          version = s.version;
          digest = s.digest;
          type_ = record {
            full = type_of s;
            package_ = s.package_;
            module_ = s.module_;
            struct_ = s.struct_;
            generics = s.generics;
          };
          owner = (ownership_of s.owner).0;
          ownership_type = (ownership_of s.owner).1;
          initial_shared_version = (ownership_of s.owner).2;
          previous_transaction = s.previous_transaction;
          storage_rebate = rebate;
          fields = s.fields;
          bcs = bytes ++ zeros (decoded_len_estimate (length s.bcs) - length bytes);
        })
  unfolding parse
  parse-document_of s rebate bytes h d l =
      let (p, m, n) = h.names in
      let typed = parse_type-print_type s.package_ s.module_ s.struct_ s.generics p m n h.terms in
      let fields = parse_content-stored s h.values in
      let decoded = parse_bcs_lem s.bcs bytes d l in
      let owned = parse_owner-stored_owner s.owner h.owner_fits in
      let whole : s.version % 2 ^ 64 ≡ s.version = omega (arith, h.version_fits) in
      rw (typed, fields, decoded, owned, rebate_of_object s.rebate, h.rebate_is, whole) refl
