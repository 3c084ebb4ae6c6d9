-- ===== src/Server/Documents/Lookups.antt =====
-- Which fields parse_fields returns.
use huracan.Prelude.{
  ◌≡◌, refl, sym, ◌∙◌, ap, Bool, true, false, Option, none, some, inl, inr, if◌then◌else◌,
  Bool-cases, arith,
}
use huracan.Prelude.Text.{Text, text, same_text, same_text_iff, less_text}
use huracan.Server.{
  ◌>>=◌, Bson, document, int32, int64, boolean, string, array, null, other_value, Fields, end,
  field, SuiMoveValue, MoveFields, no_fields, entry,
}
use huracan.Server.Documents.{
  get, as_document, get_document, insert, parse_value, parse_fields, parse_document, parse_entries,
}

-- `BTreeMap::get`
abbrev pub get_field : Text → MoveFields → Option SuiMoveValue
get_field key no_fields = none
get_field key (entry k v rest) = if same_text k key then some v else get_field key rest

-- The last value at a key.
abbrev pub get_last : Text → Fields → Option Bson → Option Bson
get_last key end found = found
get_last key (field k v rest) found = get_last key rest (if same_text k key then some v else found)

-- Each value can be parsed.
abbrev pub AllParse : Fields → Type 0
AllParse end = Unit
AllParse (field k v rest) = ((w : SuiMoveValue) × (parse_value v ≡ some w)) × AllParse rest

same_self : (s : Text) → same_text s s ≡ true
same_self s = (same_text_iff s s).1 refl

get_field-insert :
    (key k : Text) (v : SuiMoveValue) (m : MoveFields)
    → get_field key (insert k v m) ≡ (if same_text k key then some v else get_field key m)
unfolding insert
get_field-insert key k v no_fields = refl
get_field-insert key k v (entry j w rest) =
    let ih = get_field-insert key k v rest in
    elim (Bool-cases (same_text k j)) [
      | inl e ↦
          let same : k ≡ j = (same_text_iff k j).0 e in
          ground (arith, ap (λ z. same_text z key) same)
      | inr e ↦ elim (Bool-cases (less_text k j)) [
        | inl l ↦ ground arith
        | inr l ↦ elim (Bool-cases (same_text j key)) [
          | inr f ↦ ground arith
          | inl f ↦
              let same : j ≡ key = (same_text_iff j key).0 f in
              let other : same_text k key ≡ false = ap (λ z. same_text k z) (sym same) ∙ e in
              ground arith
        ]
      ]
    ]

parse_entries-get :
    (gs : Fields) (m : MoveFields) (found : Text → Option Bson)
    → AllParse gs
    → ((key : Text) → get_field key m ≡ (found key >>= parse_value))
    → (r : MoveFields) × (parse_entries gs m ≡ some r)
      × ((key : Text) → get_field key r ≡ (get_last key gs (found key) >>= parse_value))
unfolding parse_value
parse_entries-get end m found all h = (m, refl, h)
parse_entries-get (field k v rest) m found ((w, e), all) h =
    let (r, p, q) =
      parse_entries-get rest (insert k w m) (λ key. if same_text k key then some v else found key)
        all
        (λ key.
          get_field-insert key k w m
          ∙ elim (Bool-cases (same_text k key)) [ inl s ↦ rw s (sym e) | inr s ↦ rw s (h key) ]) in
    (r, rw e p, q)

parse_document_lem :
    (b : Bson) → parse_document b ≡ (as_document b >>= λ gs. parse_entries gs no_fields)
unfolding parse_value
parse_document_lem (document fields) = refl
parse_document_lem (int32 n) = refl
parse_document_lem (int64 n) = refl
parse_document_lem (boolean b) = refl
parse_document_lem (string s) = refl
parse_document_lem (array vs) = refl
parse_document_lem null = refl
parse_document_lem other_value = refl

parse_fields_lem :
    (doc : Fields)
    → parse_fields doc ≡ (get_document (text "fields") doc >>= λ gs. parse_entries gs no_fields)
unfolding parse_value
parse_fields_lem end = refl
parse_fields_lem (field k v rest) =
    by_key (same_text k (text "fields")) (parse_document_lem v) (parse_fields_lem rest)
  where
    entries : Fields → Option MoveFields
    entries gs = parse_entries gs no_fields

    by_key :
        (b : Bool)
        → parse_document v ≡ (as_document v >>= entries)
        → parse_fields rest ≡ (get_document (text "fields") rest >>= entries)
        → elim b [ true ↦ parse_document v | false ↦ parse_fields rest ]
          ≡ (((if b then some v else get (text "fields") rest) >>= as_document) >>= entries)
    by_key true d r = d
    by_key false d r = r

pub parse_fields-document :
    (doc gs : Fields)
    → get_document (text "fields") doc ≡ some gs
    → parse_fields doc ≡ parse_entries gs no_fields
parse_fields-document doc gs h =
    parse_fields_lem doc ∙ ap (λ o. o >>= λ gs. parse_entries gs no_fields) h

-- If each value of the document at the key `fields` can be parsed, parse_fields returns a map that has
-- at each key what parse_value makes of the value there, of the last one if the key comes twice, and
-- nothing at other keys.
parse_fields-get :
    (doc gs : Fields)
    → get_document (text "fields") doc ≡ some gs
    → AllParse gs
    → (r : MoveFields) × (parse_fields doc ≡ some r)
      × ((key : Text) → get_field key r ≡ (get_last key gs none >>= parse_value))
parse_fields-get doc gs h all =
    let (r, p, q) = parse_entries-get gs no_fields (λ key. none) all (λ key. refl) in
    (r, parse_fields-document doc gs h ∙ p, q)
