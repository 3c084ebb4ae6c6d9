-- ===== src/Tests/Save.antt =====
-- The saving of a checkpoint in a database that executes its third command.
use huracan.Prelude.{ℕ, ◌≡◌, refl, Bool, [], ◌∷◌, leb}
use huracan.Mongo.{Saving, mongo_checkpoint}
use huracan.Mongo.Names.{CollectionNames, mongo_collection_name}
use huracan.Mongo.Retries.{Reports, mongo_checkpoint-Reports}

abbrev pub names : CollectionNames
names = record { env = "prod"; net = "testnet"; collectionbase = "objects" }

checkpoints_name : mongo_collection_name names "_checkpoints" ≡ "prod_testnet_objects_checkpoints"
unfolding mongo_collection_name
checkpoints_name = refl

abbrev third : ℕ → Bool
third k = leb 2 k

abbrev nothing : Saving
nothing = record { commands = []; write_errors = 0; checkpoint_errors = []; created = [] }

mongo_checkpoint-Reports_example : Reports 5 2 nothing (mongo_checkpoint names third 9 5 nothing)
mongo_checkpoint-Reports_example = mongo_checkpoint-Reports names third 9 5 nothing

-- With one retry both commands fail, and the checkpoint is reported all the same.
unsaved_is_reported : (mongo_checkpoint names third 9 1 nothing).created ≡ 9 ∷ []
unfolding mongo_checkpoint
unsaved_is_reported = refl
