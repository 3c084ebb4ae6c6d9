-- ===== src/Etl/Load/Replay.antt =====
-- What a document holds after changes and deletions of its object have been written.
use huracan.Prelude.{
  ℕ, zero, suc, ◌^◌, ◌≤◌, ◌<◌, ◌≡◌, refl, ◌∙◌, inl, inr, Bool, true, false, ◌||◌, Option, none,
  some, List, [], ◌∷◌, map, ltb, if◌then◌else◌, Bool-cases, arith,
}
use huracan.Prelude.Int.{pos, to_i64}
use huracan.Etl.Types.{ObjectItem}
use huracan.Etl.Load.{
  version_, version, object, deleted, field, i64, null, lte, is_newer, update_of,
}
use huracan.Etl.Load.Stored.{Database, IsDatabase, apply, apply_all}
use huracan.Etl.Load.Versions.{AreChanges, apply_decided, number_of, created-Holds}

-- The version, the object and the mark of a document; one that a deletion has created has no object.
pub record Entry : Type 0 where
  pub number : ℕ
  pub content : Option (List ℕ)
  pub is_deleted : Bool

-- A deletion always sets the version and the mark, and leaves the object; a change is taken if it is
-- newer, and leaves the mark.
unfoldable pub replay_one : Option Entry → ObjectItem → Entry
replay_one none i = record {
  number = i.version;
  content = if i.deletion then none else some i.bytes;
  is_deleted = i.deletion;
}
replay_one (some e) i =
    let newer : Entry = record e { number = i.version; content = some i.bytes } in
    if i.deletion
    then record e { number = i.version; is_deleted = true }
    else if ltb e.number i.version
    then newer
    else e

unfoldable pub replay : Entry → List ObjectItem → Entry
unfolding replay_one
replay e [] = e
replay e (i ∷ is) = replay (replay_one (some e) i) is

abbrev pub AreSmall : List ObjectItem → Type 0
AreSmall [] = Unit
AreSmall (i ∷ is) = (i.version < 2 ^ 63) × AreSmall is

AreChanges-AreSmall : (is : List ObjectItem) → AreChanges is → AreSmall is
AreChanges-AreSmall [] c = tt
AreChanges-AreSmall (i ∷ is) ((kept, small), c) = (small, AreChanges-AreSmall is c)

-- No item is newer than the entry.
abbrev IsCovered : Entry → List ObjectItem → Type 0
IsCovered e [] = Unit
IsCovered e (i ∷ is) = (i.version ≤ e.number) × IsCovered e is

replay_one_covered :
    (e : Entry) (i : ObjectItem)
    → i.deletion ≡ false
    → i.version ≤ e.number
    → replay_one (some e) i ≡ e
unfolding replay_one
replay_one_covered e i kept h =
    let old : ltb e.number i.version ≡ false = ground (arith, h) in simp (kept, old)

replay_covered :
    (e : Entry) (is : List ObjectItem) → AreChanges is → IsCovered e is → replay e is ≡ e
unfolding replay
replay_covered e [] changes h = refl
replay_covered e (i ∷ is) ((kept, small), changes) (b, h) =
    rw (replay_one_covered e i kept b) (replay_covered e is changes h)

-- Changes raise the version.
replay_one_up :
    (e : Entry) (i : ObjectItem)
    → i.deletion ≡ false
    → (e.number ≤ (replay_one (some e) i).number) × (i.version ≤ (replay_one (some e) i).number)
unfolding replay_one
replay_one_up e i kept = elim (Bool-cases (ltb e.number i.version)) [
  | inl newer ↦ simp (kept, newer) (ground arith, omega arith)
  | inr older ↦ simp (kept, older) (omega arith, ground arith)
]

replay_up : (e : Entry) (is : List ObjectItem) → AreChanges is → e.number ≤ (replay e is).number
unfolding replay
replay_up e [] changes = omega arith
replay_up e (i ∷ is) ((kept, small), changes) =
    omega (arith, (replay_one_up e i kept).0, replay_up (replay_one (some e) i) is changes)

replay-IsCovered : (e : Entry) (is : List ObjectItem) → AreChanges is → IsCovered (replay e is) is
unfolding replay
replay-IsCovered e [] changes = tt
replay-IsCovered e (i ∷ is) ((kept, small), changes) = (
  omega (arith, (replay_one_up e i kept).1, replay_up (replay_one (some e) i) is changes),
  replay-IsCovered (replay_one (some e) i) is changes,
)

module _ (db : Database) (laws : IsDatabase db) where
  open db use {
    Doc, created, get, set_fields, set_mark, eval, is_true, int, hex_string, bson, bool, missing,
  }

  abbrev pub content_value : Option (List ℕ) → db.Value
  content_value none = missing
  content_value (some bytes) = bson bytes

  abbrev pub mark_value : Bool → db.Value
  mark_value true = bool true
  mark_value false = missing

  pub record HasEntry (d : Doc) (e : Entry) : Type 0 where
    pub number : get d version_ ≡ int (pos e.number)
    pub string : get d version ≡ hex_string e.number
    pub content : get d object ≡ content_value e.content
    pub deletion_mark : get d deleted ≡ mark_value e.is_deleted

  set-HasEntry :
      (d : Doc) (e : Entry) (x y z : db.Value)
      → x ≡ int (pos e.number)
      → y ≡ hex_string e.number
      → z ≡ content_value e.content
      → get d deleted ≡ mark_value e.is_deleted
      → HasEntry (set_fields d x y z) e
  set-HasEntry d e x y z a b c m = record {
    number = laws.get-version_ d x y z ∙ a;
    string = laws.get-version d x y z ∙ b;
    content = laws.get-object d x y z ∙ c;
    deletion_mark = laws.get-deleted d x y z ∙ m;
  }

  deleted-HasEntry :
      (d : Doc) (i : ObjectItem) (c : Option (List ℕ))
      → i.deletion ≡ true
      → i.version < 2 ^ 63
      → get d object ≡ content_value c
      → HasEntry
          (apply db d (update_of i))
          (record { number = i.version; content = c; is_deleted = true })
  unfolding apply update_of
  deleted-HasEntry d i c gone small same = simp gone (record {
    number = laws.mark-version_ d _ _ _ ∙ number_of db laws d i small;
    string = laws.mark-version d _ _ _ ∙ laws.eval-hex d i.version;
    content = laws.mark-object d _ _ _ ∙ same;
    deletion_mark = laws.mark-deleted d _ _ _ ∙ laws.eval-truth d true;
  })

  changed-HasEntry :
      (d : Doc) (e : Entry) (i : ObjectItem) (newer : Bool)
      → i.deletion ≡ false
      → i.version < 2 ^ 63
      → HasEntry d e
      → ltb e.number i.version ≡ newer
      → HasEntry
          (apply db d (update_of i))
          (if newer then record e { number = i.version; content = some i.bytes } else e)
  changed-HasEntry d e i newer kept small h n =
      let p =
        laws.lt_numbers d (field version_) (i64 (to_i64 i.version)) e.number i.version
          (laws.eval-field d version_ ∙ h.number) (number_of db laws d i small)
        ∙ n in
      let s = laws.lte_string d (field version) e.number (laws.eval-field d version ∙ h.string) in
      let q : (is_true (eval d (is_newer i)) || is_true (eval d (lte (field version) null)))
          ≡ newer =
        rw (p, s) (ground arith) in
      rw (apply_decided db laws d i newer kept small p q) (by_newer newer)
    where
      by_newer :
          (b : Bool)
          → HasEntry
              (set_fields d
                (if b then int (pos i.version) else get d version_)
                (if b then hex_string i.version else get d version)
                (if b then bson i.bytes else get d object))
              (if b then record e { number = i.version; content = some i.bytes } else e)
      by_newer true = set-HasEntry d _ _ _ _ refl refl refl h.deletion_mark
      by_newer false = set-HasEntry d e _ _ _ h.number h.string h.content h.deletion_mark

  apply-HasEntry :
      (d : Doc) (e : Entry) (i : ObjectItem)
      → i.version < 2 ^ 63
      → HasEntry d e
      → HasEntry (apply db d (update_of i)) (replay_one (some e) i)
  unfolding replay_one
  apply-HasEntry d e i small h = elim (Bool-cases i.deletion) [
    | inl gone ↦ simp gone (deleted-HasEntry d i e.content gone small h.content)
    | inr kept ↦ simp kept (changed-HasEntry d e i (ltb e.number i.version) kept small h refl)
  ]

  -- A change leaves a document that it creates without the mark.
  kept_mark :
      (i : ObjectItem) → i.deletion ≡ false → get (apply db created (update_of i)) deleted ≡ missing
  unfolding apply update_of
  kept_mark i kept = simp kept (laws.get-deleted created _ _ _ ∙ laws.get-created deleted)

  created-HasEntry :
      (i : ObjectItem)
      → i.version < 2 ^ 63
      → HasEntry (apply db created (update_of i)) (replay_one none i)
  unfolding replay_one
  created-HasEntry i small = elim (Bool-cases i.deletion) [
    | inl gone ↦ simp gone (deleted-HasEntry created i none gone small (laws.get-created object))
    | inr kept ↦ simp kept (
        let h = created-Holds db laws i kept small in
        record {
          number = h.number;
          string = h.string;
          content = h.content;
          deletion_mark = kept_mark i kept;
        })
  ]

  apply_all-HasEntry :
      (d : Doc) (e : Entry) (is : List ObjectItem)
      → AreSmall is
      → HasEntry d e
      → HasEntry (apply_all db d (map update_of is)) (replay e is)
  unfolding apply_all replay
  apply_all-HasEntry d e [] small h = h
  apply_all-HasEntry d e (i ∷ is) (b, small) h =
      apply_all-HasEntry (apply db d (update_of i)) (replay_one (some e) i) is small
        (apply-HasEntry d e i b h)

  -- What a document holds once changes and deletions of its object with versions below 2 ^ 63 have been
  -- written, in whatever order, to a document that was not there before: each deletion sets the version
  -- and the mark `deleted` and leaves the object as it is, also when a newer change has been written
  -- before; each change is taken if it is newer than the version that the document then has, and never
  -- takes the mark away.
  pub apply_all-Replays :
      (i : ObjectItem) (is : List ObjectItem)
      → AreSmall (i ∷ is)
      → HasEntry (apply_all db created (map update_of (i ∷ is))) (replay (replay_one none i) is)
  unfolding apply_all
  apply_all-Replays i is (b, small) =
      apply_all-HasEntry (apply db created (update_of i)) (replay_one none i) is small
        (created-HasEntry i b)

  -- The document after a command was executed some more times.
  abbrev pub executed_again : ℕ → List ObjectItem → Doc → Doc
  executed_again zero is d = d
  executed_again (suc k) is d = executed_again k is (apply_all db d (map update_of is))

  resent-HasEntry :
      (k : ℕ) (d : Doc) (e : Entry) (is : List ObjectItem)
      → AreChanges is
      → IsCovered e is
      → HasEntry d e
      → HasEntry (executed_again k is d) e
  resent-HasEntry zero d e is changes covers h = h
  resent-HasEntry (suc k) d e is changes covers h =
      resent-HasEntry k (apply_all db d (map update_of is)) e is changes covers (
        rw (replay_covered e is changes covers) at
          (apply_all-HasEntry d e is (AreChanges-AreSmall is changes) h))

  -- What is there before: no document yet, or one that holds an entry.
  abbrev pub Begins : Doc → Option Entry → Type 0
  Begins d none = d ≡ created
  Begins d (some e) = HasEntry d e

  first-HasEntry :
      (d : Doc) (o : Option Entry) (i : ObjectItem)
      → i.version < 2 ^ 63
      → Begins d o
      → HasEntry (apply db d (update_of i)) (replay_one o i)
  first-HasEntry d none i small h = rw h (created-HasEntry i small)
  first-HasEntry d (some e) i small h = apply-HasEntry d e i small h

  first-IsCovered :
      (o : Option Entry) (i : ObjectItem) → i.deletion ≡ false → i.version ≤ (replay_one o i).number
  unfolding replay_one
  first-IsCovered none i kept = omega arith
  first-IsCovered (some e) i kept = (replay_one_up e i kept).1

  -- A command for changes with versions below 2 ^ 63 that is executed again, as a retry may do when
  -- the answer to the first try was lost, leaves the document as the first time did, whether that was
  -- there before or was created by it.
  pub resent_same :
      (k : ℕ) (d : Doc) (o : Option Entry) (i : ObjectItem) (is : List ObjectItem)
      → AreChanges (i ∷ is)
      → Begins d o
      → HasEntry (executed_again (suc k) (i ∷ is) d) (replay (replay_one o i) is)
  unfolding apply_all
  resent_same k d o i is ((kept, small), changes) h =
      let e : Entry = replay_one o i in
      let first = first-HasEntry d o i small h in
      resent-HasEntry k (apply_all db d (map update_of (i ∷ is))) (replay e is) (i ∷ is)
        ((kept, small), changes)
        (
          omega (arith, first-IsCovered o i kept, replay_up e is changes),
          replay-IsCovered e is changes,
        )
        (apply_all-HasEntry (apply db d (update_of i)) e is (AreChanges-AreSmall is changes) first)
