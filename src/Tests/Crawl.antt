-- ===== src/Tests/Crawl.antt =====
-- Crawls over six checkpoints by two workers, with checkpoints 3 and 4 complete.
use huracan.Prelude.{
  inl, inr, ◌≡◌, ◌≤◌, ◌⊎◌, ◌%◌, ◌-◌, refl, true, false, none, some, List, [], ◌∷◌, arith, not,
}
use huracan.Mongo.{Checkpoint}
use huracan.Utils.{make_descending_ranges}
use huracan.Etl.Scan.{exhausted, do_scan}
use huracan.Etl.Scan.Complete.{HasEnded}
use huracan.Etl.Scan.Queries.{asked}
use huracan.Etl.Scan.Counts.{items_of}
use huracan.Etl.Scan.Ledger.{told}
use huracan.Etl.Scan.Known.{sends_of}
use huracan.Etl.Backfill.{backfill_worker, completed_checkpoint_ranges}
use huracan.Etl.Backfill.Ranges.{is_complete}
use huracan.Etl.Backfill.Partition.{backfill_worker_complete, backfill_worker_ends}
use huracan.Etl.Backfill.Delivery.{backfill_worker_exact, backfill_worker_once}
use huracan.Tests.Samples.{
  list_store, list_store-IsKeyStore, sample_env, sample_env-IsFlowing, fresh,
}

abbrev docs : List Checkpoint
docs = record { id = 3; stop = none } ∷ record { id = 4; stop = some false } ∷ []

crawl_control :
    (backfill_worker list_store sample_env docs 6 2 0 fresh).0.control ≡ (6, 1) ∷ (2, 1) ∷ []
unfolding backfill_worker do_scan make_descending_ranges
crawl_control = refl

stop_mark_ranges :
    completed_checkpoint_ranges (
      record { id = 9; stop = none }
      ∷ record { id = 5; stop = some true }
      ∷ record { id = 2; stop = none }
      ∷ [])
    ≡ (9, 9) ∷ (5, 5) ∷ (5, 0) ∷ []
unfolding completed_checkpoint_ranges make_descending_ranges
stop_mark_ranges = refl

backfill_worker_ends_example : HasEnded (backfill_worker list_store sample_env docs 6 2 1 fresh).1
backfill_worker_ends_example =
    backfill_worker_ends list_store sample_env docs 6 2 1 fresh (omega arith)
      (λ cp. inr (inl (inl refl)))

backfill_worker_complete_example :
    let r = backfill_worker list_store sample_env docs 6 2 ((6 - 5) % 2) fresh in
    (r.1 ≡ exhausted) × (asked 5 r.0.queries ≡ not (is_complete 5 docs))
backfill_worker_complete_example =
    backfill_worker_complete list_store sample_env docs 6 2 (omega arith) (omega arith) 5 fresh
      sample_env-IsFlowing (omega arith) (omega arith) refl refl

backfill_worker_exact_example :
    let t = (backfill_worker list_store sample_env docs 6 2 0 fresh).0 in
    (told 6 t.control ≡ []) ⊎ (told 6 t.control ≡ items_of 6 t.sent ∷ [])
backfill_worker_exact_example =
    backfill_worker_exact list_store sample_env docs 6 2 0 fresh 6 (omega arith) refl refl

backfill_worker_once_example :
    sends_of 7 (backfill_worker list_store sample_env docs 6 2 0 fresh).0.sent ≤ 0
backfill_worker_once_example =
    backfill_worker_once list_store sample_env docs 6 2 0 fresh list_store-IsKeyStore (7 ∷ []) 7
      refl refl
