-- ===== src/Tests/Newest.antt =====
-- A livescan of checkpoint 1 by one worker, through the pipeline up to its saving.
use huracan.Prelude.{◌≡◌, refl, inl, true, false, none, some, [], ◌∷◌, arith}
use huracan.Client.Changes.{created}
use huracan.Client.Objects.{parse_get_object_response, check_obj_type_from_string_vec}
use huracan.Etl.Types.{Block, Page, page, ObjectItem, livescan, ok}
use huracan.Etl.Scan.{Env, do_scan}
use huracan.Etl.Scan.Flow.{IsFlowing}
use huracan.Etl.Scan.Arrival.{IsArriving}
use huracan.Etl.Transform.{transform_chunk, to_mongo, to_retries}
use huracan.Etl.Load as Load
use huracan.Etl.Load.{load_chunk}
use huracan.Etl.Tail.{loaded, announced, start, run}
use huracan.Etl.Tail.Saved.{times}
use huracan.Etl.Pipeline.{
  Pipeline, init, done, take, crawl_item, crawl_control, transform, write, track_loaded,
  track_announced, Reach, here, next, idle, pass_objects, pass_loaded,
}
use huracan.Etl.Pipeline.Saved.{tail_of}
use huracan.Etl.Pipeline.Complete.{IsDrained}
use huracan.Prelude.Int.{negsuc}
use huracan.Etl.Livescan.{Txns, set, livescan_round, follow_scan, livescan_worker}
use huracan.Etl.Livescan.Saved.{one_crawl, livescan_saved}
use huracan.Tests.Samples.{list_store, sample_env}
use huracan.Tests.Rpc.{sample_types}
use huracan.Tests.Stages.{source}
use huracan.Tests.Flow.{world, lossless, all_taken}
use huracan.Tests.Rounds.{no_txns}

abbrev newest : Block
newest = record {
  digest = 51;
  checkpoint = some 1;
  timestamp_ms = some 900;
  object_changes = some (created 1 1 ∷ []);
}

abbrev newest_page : Page
newest_page = record { blocks = newest ∷ []; has_next_page = false; next_cursor = none }

abbrev env : Env
env = record sample_env { ingest_route = livescan; responses = λ cp. page 1000 newest_page ∷ [] }

env-IsFlowing : IsFlowing env
env-IsFlowing = record {
  unstopped = λ cp. refl;
  items = λ k. refl;
  controls = λ k. refl;
  answers = λ cp. inl (inl refl);
}

env-IsArriving : IsArriving env
env-IsArriving cp = inl (inl refl)

abbrev begun : Pipeline
begun = init (one_crawl list_store env 1 0).sent ((1, 1) ∷ [])

abbrev all_sent : Pipeline
all_sent = record begun {
  unsent = [];
  untold = [];
  object_ids = begun.unsent;
  cp_control = (1, 1) ∷ [];
}

abbrev transformed : Pipeline
transformed = pass_objects (transform_chunk sample_types source all_sent.object_ids) [] all_sent

-- The database writes the one document.
abbrev database : Load.Env
database = record {
  answer = λ k. Load.done 1 none 1;
  now = λ k. 77;
  tracklatency = true;
  retries = 3;
}

abbrev stored : Pipeline
stored = pass_loaded (load_chunk database transformed.mongo 3 idle) [] transformed

abbrev item : ObjectItem
item = record {
  cp = 1;
  deletion = false;
  id = 1;
  version = 3;
  ts_sui = some 900;
  ts_first_seen = 1000;
  ingested_via = livescan;
  bytes = 8 ∷ 9 ∷ [];
}

abbrev tracked : Pipeline
tracked = record stored {
  last = [];
  cp_control = [];
  seen = loaded ok item (some 77) ∷ announced 1 1 ∷ [];
}

Reach-tracked : Reach sample_types world begun tracked
unfolding livescan_worker do_scan transform_chunk to_mongo to_retries load_chunk
    parse_get_object_response check_obj_type_from_string_vec run start
Reach-tracked =
    let r1 = next (next here (crawl_item _ _ refl refl)) (crawl_control _ _ refl refl) in
    let r2 = next r1 (transform source _ _ refl (all_taken all_sent.object_ids) refl) in
    let r3 = next r2 (write database _ _ refl (all_taken transformed.mongo) refl) in
    let r4 = next r3 (track_loaded ok item (some 77) [] _ (take _ done) refl refl) in
    next r4 (track_announced 1 1 [] _ refl refl refl)

drained : IsDrained tracked
drained = record {
  no_unsent = refl;
  no_untold = refl;
  no_object_ids = refl;
  no_mongo = refl;
  no_last = refl;
  no_cp_control = refl;
}

abbrev memory : Txns
memory = set 51 (some (negsuc 0)) no_txns

goes_through :
    livescan_round 2 1 1 []
      (one_crawl list_store env 1 0).sent
      (one_crawl list_store env 1 0).control
      no_txns
    ≡ some (memory, (one_crawl list_store env 1 0).sent, (1, 1) ∷ [])
unfolding livescan_worker do_scan livescan_round follow_scan
goes_through = refl

livescan_saved_example : times 1 (tail_of tracked).saved ≡ 1
unfolding livescan_worker do_scan transform_chunk to_retries parse_get_object_response
    check_obj_type_from_string_vec
livescan_saved_example =
    livescan_saved sample_types world list_store env 2 1 1 0 [] no_txns memory ((1, 1) ∷ [])
      (one_crawl list_store env 1 0).sent ((1, 1) ∷ []) 1 tracked env-IsFlowing env-IsArriving
      lossless (omega arith) goes_through (omega arith) (omega arith) (omega arith) refl refl
      Reach-tracked drained refl
