-- ===== src/Etl/Runs.antt =====
-- main/src/etl.rs and main/src/mongo.rs: backfills that follow each other, in one process or in
-- several. What one has saved is what the next leaves out. A backfill may be cut off at any moment: in
-- any state of its pipeline, and between any two commands to the database.
pub mod Marks
pub mod Written
pub mod Steps
pub mod Resumed
use huracan.Prelude.{
  ℕ, suc, ◌+◌, ◌^◌, ◌≤◌, ◌<◌, ◌≡◌, Bool, true, false, Option, List, [], ◌∷◌, ◌++◌,
}
use huracan.Mongo.{Checkpoint, Command, Saving, mongo_checkpoint}
use huracan.Mongo.Names.{CollectionNames}
use huracan.Mongo.Commands.{checkpoints_of}
use huracan.Mongo.Documents.{Database}
use huracan.Client.Objects.{ObjectTypes}
use huracan.Etl.Types.{ObjectItem}
use huracan.Etl.Pipeline.{Pipeline, init, World, Reach}
use huracan.Etl.Pipeline.Saved.{tail_of}
use huracan.Etl.Backfill.Workers.{Workers, Output}

-- The last task before its first save.
abbrev pub nothing_saved : Saving
nothing_saved = record { commands = []; write_errors = 0; checkpoint_errors = []; created = [] }

-- The calls of `mongo_checkpoint` by the last task, one after the other.
unfoldable pub save_all : CollectionNames → (ℕ → Bool) → ℕ → List ℕ → Saving → Saving
unfolding mongo_checkpoint
save_all cfg executes retries [] s = s
save_all cfg executes retries (cp ∷ cps) s =
    save_all cfg executes retries cps (mongo_checkpoint cfg executes cp retries s)

module _ (database : Database) (executes : ℕ → Bool) where
  -- What commands make of the documents, from the k-th on. A command that returned an error may have
  -- been executed all the same.
  pub data Effects : ℕ → List Command → database.Docs → database.Docs → Type 0 where
    no_command : {k : ℕ} {d : database.Docs} → Effects k [] d d
    executed :
        {k : ℕ} {c : Command} {cs : List Command} {d e : database.Docs}
        → Effects (suc k) cs (database.run_command c d) e
        → Effects k (c ∷ cs) d e
    refused :
        {k : ℕ} {c : Command} {cs : List Command} {d e : database.Docs}
        → executes k ≡ false
        → Effects (suc k) cs d e
        → Effects k (c ∷ cs) d e

-- What all backfills have in common.
pub record Setting : Type 2 where
  pub types : ObjectTypes
  pub world : World types
  pub cfg : CollectionNames
  pub database : Database
  pub retries : ℕ
  pub num_checkpoint_workers : ℕ

module _ (setting : Setting) where
  open setting use {types, world, cfg, database, retries, num_checkpoint_workers}

  abbrev pub stored_checkpoints : database.Docs → List Checkpoint
  stored_checkpoints d = database.find (checkpoints_of cfg) d

  -- A backfill from the documents `d`, which leaves the documents `e`. `later` are the commands that
  -- it was not to send any more.
  pub record Run (d e : database.Docs) : Type 1 where
    pub checkpoint_max : ℕ
    pub workers : Workers
    pub sent : List (Option ℕ × ObjectItem)
    pub control : List (ℕ × ℕ)
    pub out :
        Output workers (stored_checkpoints d) checkpoint_max num_checkpoint_workers sent control
    pub last : Pipeline
    pub reached : Reach types world (init sent control) last
    pub executes : ℕ → Bool
    pub commands : List Command
    pub later : List Command
    pub issued :
        (save_all cfg executes retries (tail_of last).saved nothing_saved).commands
        ≡ commands ++ later
    pub effects : Effects database executes 0 commands d e

  -- There are not more workers than the numbers from 0 to `checkpoint_max`, and this is an i64.
  pub record IsSized {d e : database.Docs} (run : Run d e) : Type 0 where
    pub positive : 1 ≤ num_checkpoint_workers
    pub room : num_checkpoint_workers ≤ run.checkpoint_max + 1
    pub fits : run.checkpoint_max < 2 ^ 63

  -- Backfills that follow each other.
  pub data History (d : database.Docs) : database.Docs → Type 1 where
    begin_ : History d d
    after : {e f : database.Docs} → History d e → (run : Run e f) → IsSized run → History d f
