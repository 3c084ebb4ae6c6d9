-- ===== src/Tests/Flow.antt =====
-- A pipeline over a crawl of checkpoints 2 and 1 by one worker, up to the saving of both.
use huracan.Prelude.{ℕ, ◌≡◌, refl, inl, false, Option, none, some, List, [], ◌∷◌, arith}
use huracan.Client.Objects.{parse_get_object_response, check_obj_type_from_string_vec}
use huracan.Etl.Types.{ObjectItem, backfill, ok}
use huracan.Etl.Scan.{do_scan}
use huracan.Etl.Scan.Counts.{items_of}
use huracan.Utils.{make_descending_ranges}
use huracan.Etl.Backfill.{backfill_worker}
use huracan.Etl.Backfill.Workers.{Workers, no_sender, sender, Output, workers-IsExact}
use huracan.Etl.Backfill.Saved.{IsUndisturbed, backfill_saved}
use huracan.Etl.Backfill.Delivery.{backfill_worker_exact}
use huracan.Etl.Transform.{transform_chunk, to_mongo, to_retries}
use huracan.Etl.Load.{written, load_chunk}
use huracan.Etl.Tail.{Message, loaded, announced, Tail, start, run}
use huracan.Etl.Tail.Saved.{times}
use huracan.Etl.Pipeline.{
  Pipeline, init, Takes, done, take, leave, World, crawl_item, crawl_control, transform, write,
  track_loaded, track_announced, Reach, here, next, idle, pass_objects, pass_loaded,
}
use huracan.Etl.Pipeline.Tracker.{Tracks}
use huracan.Etl.Pipeline.Saved.{tail_of, view, IsExact}
use huracan.Etl.Pipeline.Refinement.{Step-Tracks}
use huracan.Etl.Pipeline.Complete.{IsLossless, IsDrained, drained-saved}
use huracan.Tests.Samples.{list_store, sample_env, sample_env-IsFlowing, fresh}
use huracan.Tests.Rpc.{sample_types}
use huracan.Tests.Stages.{source, source-AnswersAll, database}

abbrev pub sent : List (Option ℕ × ObjectItem)
sent = (backfill_worker list_store sample_env [] 2 1 0 fresh).0.sent

abbrev pub control : List (ℕ × ℕ)
control = (backfill_worker list_store sample_env [] 2 1 0 fresh).0.control

exact : IsExact sent control
exact x real = backfill_worker_exact list_store sample_env [] 2 1 0 fresh x (omega arith) refl refl

abbrev pub world : World sample_types
world = record { Answers = λ s. s ≡ source; Ends = λ r. r ≡ written }

pub lossless : IsLossless sample_types world
lossless = record { usable = λ s e. rw e source-AnswersAll; calm = λ r e. e }

abbrev begun : Pipeline
begun = init sent control

-- What the channels hold, in turn: each task and worker has handled all that it can.
abbrev all_sent : Pipeline
all_sent = record begun {
  unsent = [];
  untold = [];
  object_ids = begun.unsent;
  cp_control = control;
}

abbrev transformed : Pipeline
transformed = pass_objects (transform_chunk sample_types source all_sent.object_ids) [] all_sent

abbrev stored : Pipeline
stored = pass_loaded (load_chunk database transformed.mongo 3 idle) [] transformed

Reach-all_sent : Reach sample_types world begun all_sent
unfolding backfill_worker do_scan make_descending_ranges
Reach-all_sent =
    next
      (next (next (next here (crawl_item _ _ refl refl)) (crawl_item _ _ refl refl))
        (crawl_control _ _ refl refl))
      (crawl_control _ _ refl refl)

pub all_taken {ℓ} : {A : Type ℓ} (is : List A) → Takes is [] is
all_taken [] = done
all_taken (i ∷ is) = take i (all_taken is)

Reach-transformed : Reach sample_types world begun transformed
Reach-transformed =
    next Reach-all_sent (transform source _ _ refl (all_taken all_sent.object_ids) refl)

Reach-stored : Reach sample_types world begun stored
unfolding backfill_worker do_scan make_descending_ranges transform_chunk to_mongo load_chunk
    parse_get_object_response check_obj_type_from_string_vec
Reach-stored = next Reach-transformed (write database _ _ refl (all_taken transformed.mongo) refl)

abbrev item : ℕ → ObjectItem
item cp = record {
  cp = cp;
  deletion = false;
  id = cp;
  version = 3;
  ts_sui = some 900;
  ts_first_seen = 1000;
  ingested_via = backfill;
  bytes = 8 ∷ 9 ∷ [];
}

-- The first announcement comes before the items, the second after them.
abbrev pub tracked : Pipeline
tracked = record stored {
  last = [];
  cp_control = [];
  seen =
      announced 2 1
      ∷ loaded ok (item 2) (some 77)
      ∷ loaded ok (item 1) (some 77)
      ∷ announced 1 1
      ∷ [];
}

abbrev or_start : List Message → Tail
or_start ms = elim (run ms start) [ some t ↦ t | none ↦ start ]

pub Reach-tracked : Reach sample_types world begun tracked
unfolding backfill_worker do_scan make_descending_ranges transform_chunk to_mongo to_retries
    load_chunk parse_get_object_response check_obj_type_from_string_vec run start
Reach-tracked =
    let r1 = next Reach-stored (track_announced 2 1 ((1, 1) ∷ []) _ refl refl refl) in
    let r2 = next r1 (track_loaded ok (item 2) (some 77) _ _ (take _ (leave _ done)) refl refl) in
    let r3 = next r2 (track_loaded ok (item 1) (some 77) [] _ (take _ done) refl refl) in
    next r3 (track_announced 1 1 [] _ refl refl refl)

pub drained : IsDrained tracked
drained = record {
  no_unsent = refl;
  no_untold = refl;
  no_object_ids = refl;
  no_mongo = refl;
  no_last = refl;
  no_cp_control = refl;
}

drained-saved_example : times 2 (tail_of tracked).saved ≡ 1
unfolding backfill_worker do_scan make_descending_ranges transform_chunk to_retries
    parse_get_object_response check_obj_type_from_string_vec
drained-saved_example =
    drained-saved sample_types world lossless sent control 2 tracked (omega arith) refl
      Reach-tracked drained refl

Step-Tracks_example : Tracks (λ x. items_of x sent) (view all_sent) (view transformed)
Step-Tracks_example =
    Step-Tracks sample_types world sent control exact all_sent transformed Reach-all_sent
      (transform source all_sent.object_ids [] refl (all_taken all_sent.object_ids) refl)

-- The same crawl by two workers, of which each has one checkpoint.
abbrev pub workers : Workers
workers = record { env = λ p. sample_env; store = λ p. list_store; db = λ p. some (7 ∷ []) }

pub undisturbed : IsUndisturbed workers
undisturbed = record {
  flowing = λ p. sample_env-IsFlowing;
  arriving = λ p cp. (omega arith, inl (inl refl));
}

pub output : Output workers [] 2 2 sent control
unfolding backfill_worker do_scan make_descending_ranges
output = record {
  items = sender (sender no_sender (all_taken _)) (leave _ (take _ done));
  controls = sender (sender no_sender (take _ done)) (leave _ (take _ done));
}

workers-IsExact_example : IsExact sent control
workers-IsExact_example =
    workers-IsExact workers [] 2 2 (omega arith) (omega arith) (omega arith) sent control output

backfill_saved_example : times 1 (tail_of tracked).saved ≡ 1
unfolding backfill_worker do_scan make_descending_ranges transform_chunk to_retries
    parse_get_object_response check_obj_type_from_string_vec
backfill_saved_example =
    backfill_saved sample_types world workers [] 2 2 sent control 1 tracked (omega arith)
      (omega arith) (omega arith) undisturbed lossless output (omega arith) (omega arith) refl
      Reach-tracked drained refl
