-- ===== src/Tests/Follow.antt =====
-- The polling task and the loop of livescans on concrete data.
use huracan.Prelude.{
  ◌%◌, ◌-◌, ltb, ℕ, ◌≡◌, refl, true, false, Option, none, some, List, [], ◌∷◌, arith,
}
use huracan.Etl.Types.{ObjectItem, livescan}
use huracan.Etl.Poll.{start, take_page}
use huracan.Etl.Poll.Forward.{times, take_page-observed}
use huracan.Etl.Livescan.{Txns, cp_offset_marker, livescan_round, follow_scan, livescan_worker}
use huracan.Etl.Livescan.Memory.{FromScan}
use huracan.Etl.Livescan.Skips.{livescan_round_skips_none}
use huracan.Etl.Scan.{exhausted}
use huracan.Etl.Scan.Queries.{asked}
use huracan.Etl.Livescan.Workers.{livescan_worker_complete}
use huracan.Tests.Samples.{block, list_store, sample_env, sample_env-IsFlowing, fresh}

take_page-observed_example :
    times 8 (take_page (λ k. true) 1000 (block 8 ∷ block 8 ∷ []) start).observed ≡ 1
unfolding start
take_page-observed_example =
    take_page-observed (λ k. true) (λ k. refl) 8 1000 (block 8) (block 8 ∷ []) start refl

abbrev item : ℕ → ObjectItem
item cp = record {
  cp = cp;
  deletion = false;
  id = 1;
  version = 1;
  ts_sui = some 5;
  ts_first_seen = 10;
  ingested_via = livescan;
  bytes = [];
}

abbrev no_txns : Txns
no_txns = λ tx. none

-- Two transactions of checkpoint 201, the first with two objects, and one of checkpoint 202.
abbrev items : List (Option ℕ × ObjectItem)
items = (some 51, item 201) ∷ (none, item 201) ∷ (some 52, item 201) ∷ (some 53, item 202) ∷ []

-- The polling task has seen the first and the last transaction.
livescan_round_skips_none_example :
    (n : Txns) × (control : List (ℕ × ℕ)) × (livescan_round 3 202 200
        (51 ∷ 53 ∷ [])
        items
        ((203, 0) ∷ [])
        no_txns
      ≡ some (n, items, control))
    × FromScan (cp_offset_marker 202 200) n
livescan_round_skips_none_example =
    livescan_round_skips_none 3 202 200 (51 ∷ 53 ∷ []) items ((203, 0) ∷ []) no_txns refl
      (omega arith) (omega arith) (omega arith) (λ tx v e. cc)

-- From a process that started early, the memory is kept: the first transaction is skipped.
abbrev early : Txns × List (Option ℕ × ObjectItem) × List (ℕ × ℕ)
unfolding livescan_round follow_scan
early = elim (livescan_round 3 202 100 (51 ∷ []) items ((203, 0) ∷ []) no_txns) [
  | some r ↦ r
  | none ↦ (no_txns, [], [])
]

early_round :
    livescan_round 3 202 100 (51 ∷ []) items ((203, 0) ∷ []) no_txns
    ≡ some (early.0, early.1, early.2)
unfolding livescan_round follow_scan early
early_round = refl

early_forwards : early.1 ≡ (some 52, item 201) ∷ (some 53, item 202) ∷ []
unfolding livescan_round follow_scan early
early_forwards = refl

early_control : early.2 ≡ (201, 3) ∷ (202, 1) ∷ (203, 0) ∷ []
unfolding livescan_round follow_scan early
early_control = refl

-- A livescan from checkpoint 3 on, with two workers.
livescan_worker_complete_example :
    let r = livescan_worker list_store sample_env 6 3 2 ((6 - 5) % 2) fresh in
    (r.1 ≡ exhausted) × (asked 5 r.0.queries ≡ ltb 3 5)
livescan_worker_complete_example =
    livescan_worker_complete list_store sample_env 6 3 2 5 fresh sample_env-IsFlowing (omega arith)
      (omega arith) (omega arith) (omega arith) refl refl
