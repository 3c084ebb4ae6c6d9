-- ===== src/Mongo/Documents.antt =====
-- main/src/mongo.rs, main/src/etl.rs: what a command of `mongo_checkpoint` does to the collection of
-- checkpoints, from which `spawn_backfill_pipeline` reads. MongoDB is a parameter.
use Prim.Native.String.{String}
use mathlib.Core.List.{Perm}
use huracan.Prelude.{ℕ, ◌^◌, ◌<◌, none, List, [], ◌∷◌, ◌==◌, if◌then◌else◌}
use huracan.Prelude.Int.{pos}
use huracan.Mongo.{Checkpoint, Command}

-- The documents that `collection(name).find(None, None)` yields, and the effect of an executed
-- command.
pub record Database : Type 1 where
  pub Docs : Type 0
  pub find : String → Docs → List Checkpoint
  pub run_command : Command → Docs → Docs

-- The documents with another `_id`.
abbrev pub others : ℕ → List Checkpoint → List Checkpoint
others y [] = []
others y (c ∷ cs) = let rest = others y cs in if c.id == y then rest else c ∷ rest

-- An update with `upsert: true` and the replacement `{ _id: y }` puts this document in the place of
-- the one with the `_id` y, or adds it, and leaves all others as they are. Documents come in any order.
pub record IsDatabase (database : Database) : Type 0 where
  pub upserts :
      (name : String) (y : ℕ) (docs : database.Docs)
      → y < 2 ^ 63
      → Perm
          (database.find name (database.run_command (record { update = name; id = pos y }) docs))
          ((record { id = y; stop = none }) ∷ others y (database.find name docs))
