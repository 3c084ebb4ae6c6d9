-- ===== src/Tests/Loop.antt =====
-- Rounds of the loop of `run`: an error, two livescans, and a round without a new checkpoint.
use mathlib.Core.List.Perm
use huracan.Prelude.{ℕ, ◌≤◌, ◌≡◌, refl, Bool, false, true, Option, none, some, List, [], ◌∷◌, arith}
use huracan.Mongo.{Checkpoint}
use huracan.Etl.Backfill.{backfill_worker}
use huracan.Etl.Backfill.Unordered.{backfill_worker-Perm}
use huracan.Etl.Livescan.{Settings, livescan_round, follow_scan, plan}
use huracan.Etl.Livescan.Rounds.{Observed, Loop, enter, run_rounds, run_loop}
use huracan.Etl.Livescan.Rounds.Once.{scans_of, run_rounds_once}
use huracan.Tests.Samples.{list_store, sample_env, fresh}
use huracan.Tests.Rounds.{grouped, scan_control}

abbrev settings : Settings
settings = record {
  backfillthreshold = 100;
  pausepollonbackfill = true;
  livescanonly = false;
  cpcompletions = 3;
}

abbrev unreachable_chain : Observed
unreachable_chain = record {
  stop = false;
  latest_cp = none;
  last_completed_cp = some (some 200);
  max_cp = some 0;
  polled_txs = [];
  items = [];
  scan_control = [];
}

abbrev at_latest : ℕ → Observed
at_latest cp = record unreachable_chain { latest_cp = some cp }

abbrev rounds : List Observed
rounds =
    unreachable_chain
    ∷ record (at_latest 203) { polled_txs = 53 ∷ []; items = grouped; scan_control = scan_control }
    ∷ at_latest 203
    ∷ at_latest 206
    ∷ []

abbrev or_enter : Option Loop → Loop
or_enter none = enter none
or_enter (some t) = t

abbrev final : Loop
final = or_enter (run_rounds settings 200 rounds (enter (some 200)))

final_livescans : final.livescans ≡ (203, 200) ∷ (206, 203) ∷ []
unfolding run_rounds plan livescan_round follow_scan
final_livescans = refl

-- One step behind the threshold a backfill is run, and its result is where the livescans go on.
far_behind :
    (or_enter (
      run_rounds settings 200
        (record (at_latest 301) { max_cp = some 301 } ∷ at_latest 301 ∷ [])
        (enter (some 200)))).pauses
    ≡ 2
unfolding run_rounds plan
far_behind = refl

-- With one message more than there is room for, the loop comes to no end.
blocked :
    run_loop
      (record settings { cpcompletions = 2 })
      200
      (some (some 200))
      (record (at_latest 203) {
        polled_txs = [];
        items = grouped;
        scan_control = (203, 1) ∷ (202, 1) ∷ (201, 1) ∷ [];
      }
        ∷ [])
    ≡ none
unfolding run_loop plan livescan_round
blocked = refl

ends_in_final : run_rounds settings 200 rounds (enter (some 200)) ≡ some final
unfolding run_rounds plan livescan_round follow_scan
ends_in_final = refl

run_rounds_once_example : (200 ≤ final.last_livescan_cp) × (scans_of 202 final.livescans ≡ 1)
unfolding run_rounds plan livescan_round follow_scan
run_rounds_once_example =
    run_rounds_once settings 200 202 rounds (enter (some 200)) final
      (omega arith, (omega arith, (omega arith, (omega arith, tt)))) ends_in_final refl

abbrev doc : ℕ → Option Bool → Checkpoint
doc id stop = record { id = id; stop = stop }

backfill_worker-Perm_example :
    backfill_worker list_store sample_env (doc 1 (some true) ∷ doc 3 none ∷ []) 4 1 0 fresh
    ≡ backfill_worker list_store sample_env (doc 3 none ∷ doc 1 (some true) ∷ []) 4 1 0 fresh
backfill_worker-Perm_example =
    backfill_worker-Perm list_store sample_env (doc 1 (some true) ∷ doc 3 none ∷ [])
      (doc 3 none ∷ doc 1 (some true) ∷ []) 4 1 0 fresh (Perm.swap _ _ [])
