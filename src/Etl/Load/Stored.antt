-- ===== src/Etl/Load/Stored.antt =====
-- main/src/etl.rs: what the updates of `load_batched` rely on in MongoDB. The evaluation of its
-- aggregation expressions and of `$set` is a parameter.
use huracan.Prelude.{ℕ, ◌≡◌, Bool, true, false, ◌||◌, List, [], ◌∷◌, ltb, if◌then◌else◌}
use huracan.Prelude.Int.{ℤ, pos}
use huracan.Etl.Load.{
  Field, version_, version, object, deleted, Expr, field, i64, hex, document, truth, null, lt, lte,
  or, cond, Update, set_deleted, set_object,
}

-- `set_fields` is a `$set` of the fields version_, version and object, and `set_mark` one of version,
-- version_ and deleted; `missing` is what a field that
-- a document lacks evaluates to, and `created` the document of an upsert.
pub record Database : Type 1 where
  pub Doc : Type 0
  pub Value : Type 0
  pub created : Doc
  pub get : Doc → Field → Value
  pub set_fields : Doc → Value → Value → Value → Doc
  pub set_mark : Doc → Value → Value → Value → Doc
  pub eval : Doc → Expr → Value
  pub is_true : Value → Bool
  pub missing : Value
  pub int : ℤ → Value
  pub hex_string : ℕ → Value
  pub bson : List ℕ → Value
  pub bool : Bool → Value

module _ (db : Database) where
  open db use {
    Doc, created, get, set_fields, set_mark, eval, is_true, missing, int, hex_string, bson, bool,
  }

  -- The manual: a `$set` stage evaluates all its expressions on the document that it is given; a
  -- missing field comes before null, and null before numbers and strings.
  pub record IsDatabase : Type 0 where
    pub get-created : (f : Field) → get created f ≡ missing
    pub get-version_ : (d : Doc) (a b c : db.Value) → get (set_fields d a b c) version_ ≡ a
    pub get-version : (d : Doc) (a b c : db.Value) → get (set_fields d a b c) version ≡ b
    pub get-object : (d : Doc) (a b c : db.Value) → get (set_fields d a b c) object ≡ c
    pub get-deleted :
        (d : Doc) (a b c : db.Value) → get (set_fields d a b c) deleted ≡ get d deleted
    pub mark-version : (d : Doc) (a b c : db.Value) → get (set_mark d a b c) version ≡ a
    pub mark-version_ : (d : Doc) (a b c : db.Value) → get (set_mark d a b c) version_ ≡ b
    pub mark-deleted : (d : Doc) (a b c : db.Value) → get (set_mark d a b c) deleted ≡ c
    pub mark-object : (d : Doc) (a b c : db.Value) → get (set_mark d a b c) object ≡ get d object
    pub eval-truth : (d : Doc) (b : Bool) → eval d (truth b) ≡ bool b
    pub eval-field : (d : Doc) (f : Field) → eval d (field f) ≡ get d f
    pub eval-i64 : (d : Doc) (z : ℤ) → eval d (i64 z) ≡ int z
    pub eval-hex : (d : Doc) (n : ℕ) → eval d (hex n) ≡ hex_string n
    pub eval-document : (d : Doc) (bytes : List ℕ) → eval d (document bytes) ≡ bson bytes
    pub eval-cond :
        (d : Doc) (a b c : Expr)
        → eval d (cond a b c) ≡ (if is_true (eval d a) then eval d b else eval d c)
    pub eval-or :
        (d : Doc) (a b : Expr)
        → is_true (eval d (or a b)) ≡ (is_true (eval d a) || is_true (eval d b))
    pub lt_numbers :
        (d : Doc) (a b : Expr) (m n : ℕ)
        → eval d a ≡ int (pos m)
        → eval d b ≡ int (pos n)
        → is_true (eval d (lt a b)) ≡ ltb m n
    pub lt_missing :
        (d : Doc) (a b : Expr) (n : ℕ)
        → eval d a ≡ missing
        → eval d b ≡ int (pos n)
        → is_true (eval d (lt a b)) ≡ true
    pub lte_string :
        (d : Doc) (a : Expr) (n : ℕ)
        → eval d a ≡ hex_string n
        → is_true (eval d (lte a null)) ≡ false

  unfoldable pub apply : db.Doc → Update → db.Doc
  apply d (set_deleted id v v_ mark) = db.set_mark d (db.eval d v) (db.eval d v_) (db.eval d mark)
  apply d (set_object id v_ v o) = db.set_fields d (db.eval d v_) (db.eval d v) (db.eval d o)

  unfoldable pub apply_all : db.Doc → List Update → db.Doc
  unfolding apply
  apply_all d [] = d
  apply_all d (u ∷ us) = apply_all (apply d u) us
