-- ===== src/Server/Queries/Owners.antt =====
-- The filter on owners against the owner that the parser reads. How MongoDB evaluates a filter is a
-- parameter with the laws of its manual.
use huracan.Prelude.{
  ℕ, ◌≡◌, refl, sym, ◌∙◌, ap, Bool, false, ◌||◌, Option, none, some, List, [], ◌∷◌, ◌++◌, arith,
}
use huracan.Prelude.Text.{Text, text, same_text}
use huracan.Server.{◌>>=◌, Bson, document, int64, string, Fields, end, field}
use huracan.Prelude.Int.{pos}
use huracan.Server.Documents.{get, as_document, get_document}
use huracan.Server.Objects.{parse_owner}
use huracan.Server.Queries.{in_filter, any_of, owner_filter}

-- An owner, and how it is stored.
pub data Owner : Type 0 where
  address_owner object_owner : Text → Owner
  shared_from : ℕ → Owner
  no_owner : Owner

abbrev pub stored_owner : Owner → Bson
stored_owner (address_owner a) = document (field (text "AddressOwner") (string a) end)
stored_owner (object_owner a) = document (field (text "ObjectOwner") (string a) end)
stored_owner (shared_from n) = document (
    field (text "Shared") (document (field (text "initial_shared_version") (int64 (pos n)) end))
      end)
stored_owner no_owner = string (text "Immutable")

abbrev pub is_one_of : Text → List Text → Bool
is_one_of s [] = false
is_one_of s (t ∷ ts) = same_text s t || is_one_of s ts

-- What a path below `object.owner` leads to.
abbrev pub in_owner : Text → Fields → Option Bson
in_owner key doc = get_document (text "object") doc >>= get_document (text "owner") >>= get key

-- `$or` and, for a path that leads to a text or to nothing, `$in`.
pub record IsMatching (matches : Fields → Fields → Bool) : Type 0 where
  pub or : (f g doc : Fields) → matches (any_of f g) doc ≡ (matches f doc || matches g doc)
  pub in_text :
      (key a : Text) (values : List Text) (doc : Fields)
      → in_owner key doc ≡ some (string a)
      → matches (in_filter (text "object.owner." ++ key) values) doc ≡ is_one_of a values
  pub in_nothing :
      (key : Text) (values : List Text) (doc : Fields)
      → in_owner key doc ≡ none
      → matches (in_filter (text "object.owner." ++ key) values) doc ≡ false

abbrev pub is_owned_by : Option Text → List Text → Bool
is_owned_by none owners = false
is_owned_by (some a) owners = is_one_of a owners

module _ (matches : Fields → Fields → Bool) (matching : IsMatching matches) where
  by_paths :
      (doc : Fields) (owners : List Text) (x y : Bool)
      → matches (in_filter (text "object.owner.AddressOwner") owners) doc ≡ x
      → matches (in_filter (text "object.owner.ObjectOwner") owners) doc ≡ y
      → matches (owner_filter owners) doc ≡ (x || y)
  by_paths doc owners x y p q =
      matching.or (in_filter (text "object.owner.AddressOwner") owners)
        (in_filter (text "object.owner.ObjectOwner") owners) doc
      ∙ rw (p, q) refl

  -- By what the two paths lead to.
  owner_filter_lem :
      (doc : Fields) (o : Owner) (owners : List Text)
      → ((key : Text) → in_owner key doc ≡ (some (stored_owner o) >>= as_document >>= get key))
      → matches (owner_filter owners) doc
        ≡ is_owned_by (parse_owner (some (stored_owner o))).0 owners
  unfolding parse_owner
  owner_filter_lem doc (address_owner a) owners at =
      by_paths doc owners (is_one_of a owners) false
        (matching.in_text (text "AddressOwner") a owners doc (at (text "AddressOwner")))
        (matching.in_nothing (text "ObjectOwner") owners doc (at (text "ObjectOwner")))
      ∙ ground arith
  owner_filter_lem doc (object_owner a) owners at =
      by_paths doc owners false (is_one_of a owners)
        (matching.in_nothing (text "AddressOwner") owners doc (at (text "AddressOwner")))
        (matching.in_text (text "ObjectOwner") a owners doc (at (text "ObjectOwner")))
  owner_filter_lem doc (shared_from n) owners at =
      by_paths doc owners false false
        (matching.in_nothing (text "AddressOwner") owners doc (at (text "AddressOwner")))
        (matching.in_nothing (text "ObjectOwner") owners doc (at (text "ObjectOwner")))
  owner_filter_lem doc no_owner owners at =
      by_paths doc owners false false
        (matching.in_nothing (text "AddressOwner") owners doc (at (text "AddressOwner")))
        (matching.in_nothing (text "ObjectOwner") owners doc (at (text "ObjectOwner")))

  -- The filter for the arguments `owner` and `owners` finds a stored object exactly when the owner that
  -- the parser reads from it, of an address or of an object, is among those asked for. Objects that are
  -- shared or immutable are found for no owner.
  pub owner_filter-parse_owner :
      (doc object : Fields) (o : Owner) (owners : List Text)
      → get_document (text "object") doc ≡ some object
      → get (text "owner") object ≡ some (stored_owner o)
      → matches (owner_filter owners) doc
        ≡ is_owned_by (parse_owner (get (text "owner") object)).0 owners
  owner_filter-parse_owner doc object o owners h k =
      owner_filter_lem doc o owners (λ key.
        ap (λ d. d >>= get_document (text "owner") >>= get key) h
        ∙ ap (λ v. v >>= as_document >>= get key) k)
      ∙ sym (ap (λ v. is_owned_by (parse_owner v).0 owners) k)
