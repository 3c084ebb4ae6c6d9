-- ===== src/Tests/Versions.antt =====
-- A database for the updates of mongo workers, and two versions of an object that come out of order.
use huracan.Prelude.{
  ℕ, refl, Bool, true, false, ◌||◌, ◌≡◌, none, some, List, [], ◌∷◌, map, ltb, if◌then◌else◌, arith,
}
use huracan.Prelude.Int.{ℤ, pos}
use huracan.Etl.Types.{ObjectItem, livescan}
use huracan.Etl.Load.{
  Field, version_, version, object, deleted, Expr, field, i64, hex, document, truth, null, lt, lte,
  or, cond, update_of,
}
use huracan.Etl.Load.Stored.{Database, IsDatabase, apply_all}
use huracan.Etl.Load.Replay.{
  HasEntry, replay_one, replay, executed_again, apply_all-Replays, resent_same,
}
use huracan.Etl.Load.Versions.{Holds, IsHighest, apply_all-IsHighest}

data Value : Type 0 where
  missing : Value
  int : ℤ → Value
  hex_string : ℕ → Value
  bson : List ℕ → Value
  boolean : Bool → Value

abbrev is_true : Value → Bool
is_true (boolean b) = b
is_true _ = false

-- The comparisons that occur; missing comes first.
abbrev below : Value → Value → Bool
below missing missing = false
below missing _ = true
below (int (pos m)) (int (pos n)) = ltb m n
below _ _ = false

abbrev Doc : Type 0
Doc = Field → Value

abbrev eval : Doc → Expr → Value
eval d (field f) = d f
eval d (i64 z) = int z
eval d (hex n) = hex_string n
eval d (document bytes) = bson bytes
eval d (truth b) = boolean b
eval d null = missing
eval d (lt a b) = boolean (below (eval d a) (eval d b))
eval d (lte a b) = boolean (elim (eval d a) [ missing ↦ true | _ ↦ below (eval d a) (eval d b) ])
eval d (or a b) = boolean (is_true (eval d a) || is_true (eval d b))
eval d (cond a b c) = if is_true (eval d a) then eval d b else eval d c

abbrev fields : Doc → Value → Value → Value → Doc
fields d a b c version_ = a
fields d a b c version = b
fields d a b c object = c
fields d a b c deleted = d deleted

abbrev marks : Doc → Value → Value → Value → Doc
marks d a b c version_ = b
marks d a b c version = a
marks d a b c object = d object
marks d a b c deleted = c

abbrev database : Database
database = record {
  Doc = Doc;
  Value = Value;
  created = λ f. missing;
  get = λ d f. d f;
  set_fields = fields;
  set_mark = marks;
  eval = eval;
  is_true = is_true;
  missing = missing;
  int = int;
  hex_string = hex_string;
  bson = bson;
  bool = boolean;
}

database-IsDatabase : IsDatabase database
database-IsDatabase = record {
  get-created = λ f. refl;
  get-version_ = λ d a b c. refl;
  get-version = λ d a b c. refl;
  get-object = λ d a b c. refl;
  get-deleted = λ d a b c. refl;
  mark-version = λ d a b c. refl;
  mark-version_ = λ d a b c. refl;
  mark-deleted = λ d a b c. refl;
  mark-object = λ d a b c. refl;
  eval-truth = λ d b. refl;
  eval-field = λ d f. refl;
  eval-i64 = λ d z. refl;
  eval-hex = λ d n. refl;
  eval-document = λ d bytes. refl;
  eval-cond = λ d a b c. refl;
  eval-or = λ d a b. refl;
  lt_numbers = λ d a b m n p q. simp (p, q);
  lt_missing = λ d a b n p q. simp (p, q);
  lte_string = λ d a n p. simp p;
}

abbrev change : ℕ → ObjectItem
change v = record {
  cp = 4;
  deletion = false;
  id = 7;
  version = v;
  ts_sui = none;
  ts_first_seen = 10;
  ingested_via = livescan;
  bytes = v ∷ [];
}

apply_all-IsHighest_example :
    Holds database database-IsDatabase
      (apply_all database (λ f. missing) (map update_of (change 3 ∷ change 8 ∷ change 5 ∷ [])))
      (change 8)
    × IsHighest (change 8) (change 3 ∷ change 8 ∷ change 5 ∷ [])
apply_all-IsHighest_example =
    apply_all-IsHighest database database-IsDatabase (change 3) (change 8 ∷ change 5 ∷ [])
      ((refl, omega arith), ((refl, omega arith), ((refl, omega arith), tt)))

abbrev deletion : ℕ → ObjectItem
deletion v = record (change v) { deletion = true; bytes = [] }

-- A deletion that comes late sets the version back, so that an older change is taken.
abbrev late_deletion : List ObjectItem
late_deletion = deletion 3 ∷ change 5 ∷ []

set_back :
    replay (record { number = 8; content = some (8 ∷ []); is_deleted = false }) late_deletion
    ≡ record { number = 5; content = some (5 ∷ []); is_deleted = true }
unfolding replay
set_back = refl

abbrev written : Doc
written = apply_all database (λ f. missing) (map update_of (change 8 ∷ late_deletion))

written-HasEntry :
    HasEntry database database-IsDatabase written
      (record { number = 5; content = some (5 ∷ []); is_deleted = true })
unfolding replay replay_one
written-HasEntry =
    apply_all-Replays database database-IsDatabase (change 8) late_deletion
      (omega arith, (omega arith, (omega arith, tt)))

apply_all-Replays_example :
    HasEntry database database-IsDatabase written
      (replay (replay_one none (change 8)) late_deletion)
apply_all-Replays_example =
    apply_all-Replays database database-IsDatabase (change 8) late_deletion
      (omega arith, (omega arith, (omega arith, tt)))

-- A command with a deletion is not the same when it is executed twice.
not_the_same :
    replay
      (replay
        (record { number = 9; content = none; is_deleted = true })
        (change 2 ∷ deletion 1 ∷ []))
      (change 2 ∷ deletion 1 ∷ [])
    ≡ record { number = 1; content = some (2 ∷ []); is_deleted = true }
unfolding replay
not_the_same = refl

resent_same_example :
    HasEntry database database-IsDatabase
      (executed_again database database-IsDatabase 3 (change 4 ∷ change 9 ∷ []) (λ f. missing))
      (replay (replay_one none (change 4)) (change 9 ∷ []))
resent_same_example =
    resent_same database database-IsDatabase 2 (λ f. missing) none (change 4) (change 9 ∷ [])
      ((refl, omega arith), ((refl, omega arith), tt)) refl
