-- ===== src/Etl/Load.antt =====
-- main/src/etl.rs: `load_batched`, a mongo worker. The database is given by its answers to the
-- successive commands; the updates that it is sent are data. The chunks of the stream come as a list.
pub mod Chunks
pub mod Stored
pub mod Versions
pub mod Replay
use huracan.Prelude.{
  ℕ, zero, suc, ◌+◌, ◌-◌, ◌%◌, ◌^◌, Bool, true, false, Option, none, some, List, [], ◌∷◌, ◌++◌, map,
  length, ltb, ◌==◌, if◌then◌else◌, sub64,
}
use huracan.Prelude.Int.{to_i64, ℤ, pos, negsuc}
use huracan.Etl.Types.{ObjectItem, StepStatus, ok}

-- The names of the fields of the stored documents that the pipelines write.
pub data Field : Type 0 where
  version_ version object deleted : Field

-- The expressions of the aggregation pipeline. `hex` is the string of a version, which Display of
-- `SequenceNumber` writes; `document` is read from the bytes of an object, `truth` is a literal.
pub data Expr : Type 0 where
  field : Field → Expr
  i64 : ℤ → Expr
  hex : ℕ → Expr
  document : List ℕ → Expr
  truth : Bool → Expr
  null : Expr
  lt lte or : Expr → Expr → Expr
  cond : (if_ then_ else_ : Expr) → Expr

-- The statements, each for the document with the `_id` of an object, created if there is none:
-- `set_deleted` is a plain `$set`, `set_object` a pipeline that sets the three fields in this order.
pub data Update : Type 0 where
  set_deleted : (id : ℕ) → (version version_ deleted : Expr) → Update
  set_object : (id : ℕ) → (version_ version object : Expr) → Update

-- `{"$lt": ["$version_", v_]}`
abbrev pub is_newer : ObjectItem → Expr
is_newer item = lt (field version_) (i64 (to_i64 item.version))

unfoldable pub update_of : ObjectItem → Update
update_of item =
    let v_ : Expr = i64 (to_i64 item.version) in
    if item.deletion
    then set_deleted item.id (hex item.version) v_ (truth true)
    else set_object item.id
        (cond (or (is_newer item) (lte (field version) null)) v_ (field version_))
        (cond (is_newer item) (hex item.version) (field version))
        (cond (is_newer item) (document item.bytes) (field object))

-- The answer to a command: the numbers that are read from it (`upserted` is a list that may be
-- missing; its length counts), or an error.
pub data Answer : Type 0 where
  done : (n : ℕ) → (upserted : Option ℕ) → (n_modified : ℕ) → Answer
  failed : Answer

-- The points of the three measurements, of one chunk.
pub record Counts : Type 0 where
  pub inserted : ℕ
  pub modified : ℕ
  pub unchanged : ℕ

-- What the worker has done: commands sent, items passed on, points and error points written.
pub record Load : Type 0 where
  pub commands : List (List Update)
  pub loaded : List (StepStatus × ObjectItem × Option ℕ)
  pub counts : List Counts
  pub write_errors : ℕ

pub data Result : Type 0 where
  written panicked : Result

-- The database, and the clock as it is read after the k-th command.
pub record Env : Type 0 where
  pub answer : ℕ → Answer
  pub now : ℕ → ℕ
  pub tracklatency : Bool
  pub retries : ℕ

-- The metrics of a chunk; `n - (inserted + modified as usize)` is usize arithmetic.
unfoldable pub counts_of : ℕ → Option ℕ → ℕ → Counts
counts_of n upserted n_modified =
    let inserted : ℕ = (elim upserted [ none ↦ 0 | some k ↦ k ]) in
    record {
      inserted = inserted;
      modified = n_modified;
      unchanged = sub64 n ((inserted + n_modified) % 2 ^ 64);
    }

module _ (env : Env) where
  -- `if res.get_i32("n").unwrap() != n as i32`, and the rest of the arm `Ok`.
  pub accept : List ObjectItem → ℕ → Option ℕ → ℕ → Load → Load × Result
  unfolding counts_of
  accept chunk n upserted n_modified l =
      let completed_at : Option ℕ =
        (if env.tracklatency then some (env.now (length l.commands)) else none) in
      if n == length chunk
      then (
        record l {
          loaded = l.loaded ++ map (λ (i : ObjectItem). (ok, i, completed_at)) chunk;
          counts = l.counts ++ counts_of (length chunk) upserted n_modified ∷ [];
        },
        written,
      )
      else (record l { write_errors = l.write_errors + 1 }, panicked)

  abbrev pub send_command : List ObjectItem → Load → Load
  send_command chunk l = record l { commands = l.commands ++ map update_of chunk ∷ [] }

  abbrev pub count_error : Load → Load
  count_error l = record l { write_errors = l.write_errors + 1 }

  -- The loop for one chunk, by `retries_left`.
  unfoldable pub load_chunk : List ObjectItem → ℕ → Load → Load × Result
  unfolding accept
  load_chunk chunk zero l = elim (env.answer (length l.commands)) [
    | done n upserted n_modified ↦ accept chunk n upserted n_modified (send_command chunk l)
    | failed ↦ (count_error (send_command chunk l), panicked)
  ]
  load_chunk chunk (suc retries_left) l = elim (env.answer (length l.commands)) [
    | done n upserted n_modified ↦ accept chunk n upserted n_modified (send_command chunk l)
    | failed ↦ load_chunk chunk retries_left (count_error (send_command chunk l))
  ]

  unfoldable pub load_batched : List (List ObjectItem) → Load → Load × Result
  unfolding load_chunk
  load_batched [] l = (l, written)
  load_batched (c ∷ cs) l =
      let r = load_chunk c env.retries l in
      elim r.1 [ written ↦ load_batched cs r.0 | panicked ↦ r ]
