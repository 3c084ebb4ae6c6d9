-- ===== src/Server/Documents/RoundTrip.antt =====
-- Move values as they are stored in documents, and what parse_value makes of them.
use huracan.Prelude.{[], ◌∷◌, ◌<◌, ◌^◌, ◌≡◌, refl, ◌∙◌, ap, true, false, some, arith}
use huracan.Prelude.Int.{pos}
use huracan.Prelude.Text.{Text, text, same_text, less_text}
use huracan.Server.{
  Bson, document, int64, boolean, string, array, null, Fields, end, field, Items, nil, item,
  SuiMoveValue, number, truth, address, vector, characters, id, struct, nothing, MoveValues,
  no_values, value, MoveFields, no_fields, entry,
}
use huracan.Server.Documents.{insert, parse_value, parse_values, parse_entries}

-- A struct has its type and its fields, and an object id has its text at the key `id`.
unfoldable mutual
  pub render : SuiMoveValue → Bson
  render (number n) = int64 (pos n)
  render (truth b) = boolean b
  render (address a) = string a
  render (vector vs) = array (render_values vs)
  render (characters s) = string s
  render (id i) = document (field (text "id") (string i) end)
  render (struct t fs) =
      document
        (field (text "type") (string t) (field (text "fields") (document (render_fields fs)) end))
  render nothing = null

  pub render_values : MoveValues → Items
  render_values no_values = nil
  render_values (value v vs) = item (render v) (render_values vs)

  pub render_fields : MoveFields → Fields
  render_fields no_fields = end
  render_fields (entry k v fs) = field k (render v) (render_fields fs)

-- The key is less than all those of the map.
abbrev pub IsBelow : Text → MoveFields → Type 0
IsBelow k no_fields = Unit
IsBelow k (entry j v fs) = (less_text k j ≡ true) × IsBelow k fs

abbrev pub AreBelow : MoveFields → MoveFields → Type 0
AreBelow no_fields fs = Unit
AreBelow (entry k v rest) fs = IsBelow k fs × AreBelow rest fs

-- A value other than an address, with numbers of 32 bits, and with the keys of its maps in order.
unfoldable mutual
  pub IsStored : SuiMoveValue → Type 0
  IsStored (number n) = n < 2 ^ 32
  IsStored (address a) = ⊥
  IsStored (vector vs) = AreStored vs
  IsStored (struct t fs) = FieldsAreStored fs
  IsStored _ = Unit

  pub AreStored : MoveValues → Type 0
  AreStored no_values = Unit
  AreStored (value v vs) = IsStored v × AreStored vs

  pub FieldsAreStored : MoveFields → Type 0
  FieldsAreStored no_fields = Unit
  FieldsAreStored (entry k v fs) = IsStored v × IsBelow k fs × FieldsAreStored fs

abbrev append_fields : MoveFields → MoveFields → MoveFields
append_fields no_fields fs = fs
append_fields (entry k v rest) fs = entry k v (append_fields rest fs)

append_fields_assoc :
    (a b c : MoveFields) → append_fields (append_fields a b) c ≡ append_fields a (append_fields b c)
append_fields_assoc no_fields b c = refl
append_fields_assoc (entry k v a) b c = ap (entry k v) (append_fields_assoc a b c)

less_text_asym :
    (s t : Text) → less_text s t ≡ true → (same_text t s ≡ false) × (less_text t s ≡ false)
less_text_asym [] [] h = cc
less_text_asym [] (d ∷ t) h = (refl, refl)
less_text_asym (c ∷ s) [] h = cc
less_text_asym (c ∷ s) (d ∷ t) h =
    let ih = less_text_asym s t in (ground (arith, ih), ground (arith, ih))

-- A key above all others is inserted at the end.
insert-append :
    (k : Text) (v : SuiMoveValue) (map fs : MoveFields)
    → AreBelow map (entry k v fs)
    → insert k v map ≡ append_fields map (entry k v no_fields)
unfolding insert
insert-append k v no_fields fs h = refl
insert-append k v (entry j w rest) fs ((l, m), h) =
    let (e, f) = less_text_asym j k l in rw (e, f) (ap (entry j w) (insert-append k v rest fs h))

AreBelow-append :
    (map fs : MoveFields) (k : Text) (v : SuiMoveValue)
    → AreBelow map (entry k v fs)
    → IsBelow k fs
    → AreBelow (append_fields map (entry k v no_fields)) fs
AreBelow-append no_fields fs k v h b = (b, tt)
AreBelow-append (entry j w rest) fs k v ((l, m), h) b = (m, AreBelow-append rest fs k v h b)

mutual
  unfolding parse_value render IsStored

  parse-render : (v : SuiMoveValue) → IsStored v → parse_value (render v) ≡ some v
  parse-render (number n) h = ap (λ m. some (number m)) (omega arith)
  parse-render (truth b) h = refl
  parse-render (address a) h = absurd h
  parse-render (vector vs) h = rw (parse-render_values vs h) refl
  parse-render (characters s) h = refl
  parse-render (id i) h = refl
  parse-render (struct t fs) h = rw (parse-render_fields fs no_fields h tt) refl
  parse-render nothing h = refl

  parse-render_values : (vs : MoveValues) → AreStored vs → parse_values (render_values vs) ≡ some vs
  parse-render_values no_values h = refl
  parse-render_values (value v vs) (h, hs) = rw (parse-render v h, parse-render_values vs hs) refl

  parse-render_fields :
      (fs map : MoveFields)
      → FieldsAreStored fs
      → AreBelow map fs
      → parse_entries (render_fields fs) map ≡ some (append_fields map fs)
  parse-render_fields no_fields map h b = ap some (append_nothing map)
    where
      append_nothing : (m : MoveFields) → m ≡ append_fields m no_fields
      append_nothing no_fields = refl
      append_nothing (entry k v m) = ap (entry k v) (append_nothing m)
  parse-render_fields (entry k v fs) map (h, l, hs) b = rw (parse-render v h) (
      ap (parse_entries (render_fields fs)) (insert-append k v map fs b)
      ∙ parse-render_fields fs (append_fields map (entry k v no_fields)) hs
          (AreBelow-append map fs k v b l)
      ∙ ap some (append_fields_assoc map (entry k v no_fields) fs))

pub parse_entries-render_fields :
    (fs : MoveFields) → FieldsAreStored fs → parse_entries (render_fields fs) no_fields ≡ some fs
parse_entries-render_fields fs h = parse-render_fields fs no_fields h tt

-- What is stored of a Move value without addresses, whose numbers have 32 bits, is parsed into the value
-- again: numbers, nested vectors and structs, object ids and nulls are told apart and nothing is lost.
pub parse_value-render : (v : SuiMoveValue) → IsStored v → parse_value (render v) ≡ some v
parse_value-render v h = parse-render v h
