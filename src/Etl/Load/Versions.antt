-- ===== src/Etl/Load/Versions.antt =====
-- Which version of an object is stored, once several have been written.
use huracan.Prelude.{
  ◌^◌, ◌≤◌, ◌<◌, ◌≡◌, refl, ◌∙◌, ap, Bool, true, false, ◌||◌, List, [], ◌∷◌, map, ltb,
  if◌then◌else◌, arith,
}
use huracan.Prelude.Int.{pos, to_i64}
use huracan.Etl.Types.{ObjectItem}
use huracan.Etl.Load.{
  version_, version, object, Expr, field, i64, hex, document, null, lte, or, cond, is_newer,
  update_of,
}
use huracan.Etl.Load.Stored.{Database, IsDatabase, apply, apply_all}

-- The item with the highest version: the first of those that share it.
abbrev pub newest : ObjectItem → List ObjectItem → ObjectItem
newest old [] = old
newest old (i ∷ is) = newest (if ltb old.version i.version then i else old) is

-- No item has a higher version.
abbrev pub IsHighest : ObjectItem → List ObjectItem → Type 0
IsHighest n [] = Unit {0}
IsHighest n (i ∷ is) = (i.version ≤ n.version) × IsHighest n is

newest-IsHighest : (old : ObjectItem) (is : List ObjectItem) → IsHighest (newest old is) (old ∷ is)
newest-IsHighest old [] = (omega arith, tt)
newest-IsHighest old (i ∷ is) =
    let (p, ps) = newest-IsHighest (if ltb old.version i.version then i else old) is in
    (ground arith, (ground arith, ps))

-- The items are changes, with versions below 2 ^ 63.
abbrev pub AreChanges : List ObjectItem → Type 0
AreChanges [] = Unit {0}
AreChanges (i ∷ is) = ((i.deletion ≡ false) × (i.version < 2 ^ 63)) × AreChanges is

module _ (db : Database) (laws : IsDatabase db) where
  open db use {Doc, created, get, set_fields, eval, is_true, int, hex_string, bson, missing}

  -- The document holds the version and the object of an item.
  pub record Holds (d : Doc) (i : ObjectItem) : Type 0 where
    pub number : get d version_ ≡ int (pos i.version)
    pub string : get d version ≡ hex_string i.version
    pub content : get d object ≡ bson i.bytes

  eval_decided :
      (d : Doc) (a b c : Expr) (t : Bool) (x y : db.Value)
      → is_true (eval d a) ≡ t
      → eval d b ≡ x
      → eval d c ≡ y
      → eval d (cond a b c) ≡ (if t then x else y)
  eval_decided d a b c t x y p q r = laws.eval-cond d a b c ∙ rw (p, q, r) refl

  -- The three expressions of an update, with the tests decided.
  pub apply_decided :
      (d : Doc) (i : ObjectItem) (newer : Bool)
      → i.deletion ≡ false
      → i.version < 2 ^ 63
      → is_true (eval d (is_newer i)) ≡ newer
      → (is_true (eval d (is_newer i)) || is_true (eval d (lte (field version) null))) ≡ newer
      → apply db d (update_of i)
        ≡ set_fields d
            (if newer then int (pos i.version) else get d version_)
            (if newer then hex_string i.version else get d version)
            (if newer then bson i.bytes else get d object)
  unfolding apply update_of
  apply_decided d i newer c b p q =
      let z : to_i64 i.version ≡ pos i.version = ground arith in
      let e : eval d (i64 (to_i64 i.version)) ≡ int (pos i.version) =
        laws.eval-i64 d (to_i64 i.version) ∙ ap int z in
      let number =
        eval_decided d (or (is_newer i) (lte (field version) null)) (i64 (to_i64 i.version))
          (field version_) newer (int (pos i.version)) (get d version_)
          (laws.eval-or d (is_newer i) (lte (field version) null) ∙ q) e
          (laws.eval-field d version_) in
      let string =
        eval_decided d (is_newer i) (hex i.version) (field version) newer (hex_string i.version)
          (get d version) p (laws.eval-hex d i.version) (laws.eval-field d version) in
      let content =
        eval_decided d (is_newer i) (document i.bytes) (field object) newer (bson i.bytes)
          (get d object) p (laws.eval-document d i.bytes) (laws.eval-field d object) in
      simp c (rw (number, string, content) refl)

  pub number_of :
      (d : Doc) (i : ObjectItem)
      → i.version < 2 ^ 63
      → eval d (i64 (to_i64 i.version)) ≡ int (pos i.version)
  number_of d i b =
      let z : to_i64 i.version ≡ pos i.version = ground arith in
      laws.eval-i64 d (to_i64 i.version) ∙ ap int z

  set-Holds :
      (d : Doc) (old i : ObjectItem) (newer : Bool)
      → Holds d old
      → Holds
          (set_fields d
            (if newer then int (pos i.version) else get d version_)
            (if newer then hex_string i.version else get d version)
            (if newer then bson i.bytes else get d object))
          (if newer then i else old)
  set-Holds d old i true h = record {
    number = laws.get-version_ d _ _ _;
    string = laws.get-version d _ _ _;
    content = laws.get-object d _ _ _;
  }
  set-Holds d old i false h = record {
    number = laws.get-version_ d _ _ _ ∙ h.number;
    string = laws.get-version d _ _ _ ∙ h.string;
    content = laws.get-object d _ _ _ ∙ h.content;
  }

  apply-Holds :
      (d : Doc) (old i : ObjectItem)
      → i.deletion ≡ false
      → i.version < 2 ^ 63
      → Holds d old
      → Holds (apply db d (update_of i)) (if ltb old.version i.version then i else old)
  apply-Holds d old i c b h =
      let newer : Bool = ltb old.version i.version in
      let p =
        laws.lt_numbers d (field version_) (i64 (to_i64 i.version)) old.version i.version
          (laws.eval-field d version_ ∙ h.number) (number_of d i b) in
      let s =
        laws.lte_string d (field version) old.version (laws.eval-field d version ∙ h.string) in
      let q : (is_true (eval d (is_newer i)) || is_true (eval d (lte (field version) null)))
          ≡ newer =
        rw (p, s) (ground arith) in
      rw (apply_decided d i newer c b p q) (set-Holds d old i newer h)

  pub created-Holds :
      (i : ObjectItem)
      → i.deletion ≡ false
      → i.version < 2 ^ 63
      → Holds (apply db created (update_of i)) i
  created-Holds i c b =
      let p : is_true (eval created (is_newer i)) ≡ true =
        laws.lt_missing created (field version_) (i64 (to_i64 i.version)) i.version
          (laws.eval-field created version_ ∙ laws.get-created version_) (number_of created i b) in
      let q : (is_true (eval created (is_newer i))
            || is_true (eval created (lte (field version) null)))
          ≡ true =
        rw p refl in
      rw (apply_decided created i true c b p q) (record {
        number = laws.get-version_ created _ _ _;
        string = laws.get-version created _ _ _;
        content = laws.get-object created _ _ _;
      })

  apply_all-Holds :
      (d : Doc) (old : ObjectItem) (is : List ObjectItem)
      → AreChanges is
      → Holds d old
      → Holds (apply_all db d (map update_of is)) (newest old is)
  unfolding apply_all
  apply_all-Holds d old [] c h = h
  apply_all-Holds d old (i ∷ is) ((c, b), cs) h =
      apply_all-Holds (apply db d (update_of i)) (if ltb old.version i.version then i else old) is
        cs (apply-Holds d old i c b h)

  -- Once changes of an object with versions below 2 ^ 63 have been written, to a document that was
  -- not there before, in whatever order and each as often as may be, the document holds the version
  -- and the object of the change with the highest version.
  pub apply_all-IsHighest :
      (i : ObjectItem) (is : List ObjectItem)
      → AreChanges (i ∷ is)
      → Holds (apply_all db created (map update_of (i ∷ is))) (newest i is)
        × IsHighest (newest i is) (i ∷ is)
  unfolding apply_all
  apply_all-IsHighest i is ((c, b), cs) = (
    apply_all-Holds (apply db created (update_of i)) i is cs (created-Holds i c b),
    newest-IsHighest i is,
  )
