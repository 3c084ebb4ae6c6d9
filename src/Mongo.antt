-- ===== src/Mongo.antt =====
-- main/src/mongo.rs: the documents of the `_checkpoints` collection, and how they are written. The
-- database is given by whether it executes the k-th command.
pub mod Names
pub mod Retries
pub mod Documents
pub mod Commands
use Prim.Native.String.{String}
use huracan.Prelude.{
  ℕ, zero, suc, ◌+◌, Bool, true, false, Option, List, [], ◌∷◌, ◌++◌, length, if◌then◌else◌,
}
use huracan.Prelude.Int.{ℤ, to_i64}
use huracan.Mongo.Names.{CollectionNames, mongo_collection_name}

-- `stop` marks the oldest checkpoint to look at: all older ones count as completed.
pub record Checkpoint : Type 0 where
  pub id : ℕ
  pub stop : Option Bool

-- An upsert of the document with the given `_id`.
pub record Command : Type 0 where
  pub update : String
  pub id : ℤ

-- The commands sent, and the points written: `mongo_write_error`, and `checkpoint_error` and
-- `create_checkpoint` with their checkpoints.
pub record Saving : Type 0 where
  pub commands : List Command
  pub write_errors : ℕ
  pub checkpoint_errors : List ℕ
  pub created : List ℕ

module _ (cfg : CollectionNames) (executes : ℕ → Bool) (cp : ℕ) where
  pub send_save : Saving → Saving
  unfolding mongo_collection_name
  send_save s =
      let command : Command = record {
        update = mongo_collection_name cfg "_checkpoints";
        id = to_i64 cp;
      } in
      record s { commands = s.commands ++ command ∷ [] }

  pub report_failure : Saving → Saving
  report_failure s = record s {
    write_errors = s.write_errors + 1;
    checkpoint_errors = s.checkpoint_errors ++ cp ∷ [];
  }

  -- What follows the loop's `if`, after a success and after the last failure.
  pub report_saved : Saving → Saving
  report_saved s = record s { created = s.created ++ cp ∷ [] }

  -- The loop, by `retries_left`.
  unfoldable pub mongo_checkpoint : ℕ → Saving → Saving
  unfolding send_save report_failure report_saved
  mongo_checkpoint zero s =
      if executes (length s.commands)
      then report_saved (send_save s)
      else report_saved (report_failure (send_save s))
  mongo_checkpoint (suc retries_left) s =
      let rest = mongo_checkpoint retries_left (report_failure (send_save s)) in
      if executes (length s.commands) then report_saved (send_save s) else rest
