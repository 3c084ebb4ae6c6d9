-- ===== src/Tests/Restarts.antt =====
-- A backfill of checkpoints 2 and 1 that runs to its end, and another one after it.
use mathlib.Core.List.Perm
use huracan.Prelude.{ℕ, ◌≡◌, refl, ◌⊎◌, Bool, true, none, List, [], ◌∷◌, ◌++◌, arith}
use huracan.Prelude.Int.{pos_part}
use huracan.Mongo.{Checkpoint, Command, mongo_checkpoint}
use huracan.Mongo.Documents.{Database, others, IsDatabase}
use huracan.Mongo.Commands.{checkpoints_of, command}
use huracan.Client.Objects.{parse_get_object_response, check_obj_type_from_string_vec}
use huracan.Utils.{make_descending_ranges}
use huracan.Etl.Scan.{do_scan}
use huracan.Etl.Transform.{transform_chunk, to_retries}
use huracan.Etl.Tail.{start, step, run}
use huracan.Etl.Pipeline.Saved.{tail_of}
use huracan.Etl.Pipeline.{init, done, here}
use huracan.Etl.Backfill.{completed_checkpoint_ranges, backfill_worker}
use huracan.Etl.Backfill.Ranges.{is_complete}
use huracan.Etl.Backfill.Workers.{Output, no_sender, sender}
use huracan.Etl.Runs.{
  nothing_saved, save_all, Effects, no_command, executed, Setting, stored_checkpoints, Run, IsSized,
  History, begin_, after,
}
use huracan.Etl.Runs.Resumed.{
  WasLoaded, IsLeftOut, IsFinished, history-WasLoaded, history-IsLeftOut, finished_complete,
}
use huracan.Tests.Rpc.{sample_types}
use huracan.Tests.Save.{names}
use huracan.Tests.Flow.{
  sent, control, world, lossless, tracked, Reach-tracked, drained, workers, undisturbed, output,
}

abbrev list_database : Database
list_database = record {
  Docs = List Checkpoint;
  find = λ name docs. docs;
  run_command =
      λ c docs. (record { id = pos_part c.id; stop = none }) ∷ others (pos_part c.id) docs;
}

list_database-IsDatabase : IsDatabase list_database
list_database-IsDatabase = record { upserts = λ name y docs small. Perm.rfl }

abbrev setting : Setting
setting = record {
  types = sample_types;
  world = world;
  cfg = names;
  database = list_database;
  retries = 3;
  num_checkpoint_workers = 2;
}

abbrev saved_doc : ℕ → Checkpoint
saved_doc id = record { id = id; stop = none }

abbrev both_saved : List Checkpoint
both_saved = saved_doc 1 ∷ saved_doc 2 ∷ []

abbrev always : ℕ → Bool
always k = true

abbrev issued_commands : List Command
issued_commands = command names 2 ∷ command names 1 ∷ []

issued :
    (save_all names always 3 (tail_of tracked).saved nothing_saved).commands ≡ issued_commands ++ []
unfolding save_all mongo_checkpoint checkpoints_of step run start
issued = refl

effects : Effects list_database always 0 issued_commands [] both_saved
effects = executed (executed no_command)

no_command_issued :
    (save_all names always 3 (tail_of (init [] [])).saved nothing_saved).commands ≡ []
unfolding save_all run start
no_command_issued = refl

abbrev first : Run setting [] both_saved
first = record {
  checkpoint_max = 2;
  workers = workers;
  sent = sent;
  control = control;
  out = output;
  last = tracked;
  reached = Reach-tracked;
  executes = always;
  commands = issued_commands;
  later = [];
  issued = issued;
  effects = effects;
}

first-IsSized : IsSized setting first
first-IsSized = record { positive = omega arith; room = omega arith; fits = omega arith }

first-IsFinished : IsFinished setting first
first-IsFinished = record {
  undisturbed = undisturbed;
  lossless = lossless;
  drained = drained;
  whole = refl;
  recovers = λ k. omega arith;
}

-- The second backfill finds both checkpoints complete, and sends nothing.
nothing-Output : Output workers both_saved 2 2 [] []
unfolding backfill_worker completed_checkpoint_ranges do_scan make_descending_ranges
nothing-Output = record {
  items = sender (sender no_sender done) done;
  controls = sender (sender no_sender done) done;
}

abbrev second : Run setting both_saved both_saved
second = record {
  checkpoint_max = 2;
  workers = workers;
  sent = [];
  control = [];
  out = nothing-Output;
  last = init [] [];
  reached = here;
  executes = always;
  commands = [];
  later = [];
  issued = no_command_issued;
  effects = no_command;
}

second-IsSized : IsSized setting second
second-IsSized = record { positive = omega arith; room = omega arith; fits = omega arith }

abbrev first_runs : History setting [] both_saved
first_runs = after begin_ first first-IsSized

abbrev later_runs : History setting both_saved both_saved
later_runs = after begin_ second second-IsSized

history-WasLoaded_example :
    (is_complete 1 (stored_checkpoints setting []) ≡ true) ⊎ WasLoaded setting 1 first_runs
history-WasLoaded_example =
    history-WasLoaded setting list_database-IsDatabase 1 first_runs (omega arith) refl

history-IsLeftOut_example :
    (is_complete 2 (stored_checkpoints setting both_saved) ≡ true) × IsLeftOut setting 2 later_runs
history-IsLeftOut_example =
    history-IsLeftOut setting list_database-IsDatabase 2 later_runs (omega arith) refl

finished_complete_example : is_complete 1 (stored_checkpoints setting both_saved) ≡ true
unfolding backfill_worker do_scan make_descending_ranges transform_chunk to_retries
    parse_get_object_response check_obj_type_from_string_vec
finished_complete_example =
    finished_complete setting list_database-IsDatabase 1 first later_runs first-IsSized
      first-IsFinished (omega arith) (omega arith) refl
