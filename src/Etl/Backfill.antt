-- ===== src/Etl/Backfill.antt =====
-- main/src/etl.rs: `spawn_backfill_pipeline`, as far as it divides the checkpoints among the
-- workers. The documents of the `_checkpoints` collection come as a list.
pub mod Ranges
pub mod Partition
pub mod Delivery
pub mod Workers
pub mod Saved
pub mod Unordered
pub mod Missing
use huracan.Prelude.{
  ℕ, ◌+◌, Bool, true, false, Option, none, some, List, [], ◌∷◌, ◌++◌, map, ltb, if◌then◌else◌, max,
}
use huracan.Mongo.{Checkpoint}
use huracan.Utils.{sort_unstable, make_descending_ranges}
use huracan.Etl.Types.{KeyStore}
use huracan.Etl.Scan.{Env, Scan, Ended, do_scan}

-- `cp.stop.unwrap_or(false)`
abbrev pub is_stop : Checkpoint → Bool
is_stop c = elim c.stop [ none ↦ false | some b ↦ b ]

-- `stop_at` after the closure has seen every document.
pub max_stop : ℕ → List Checkpoint → ℕ
max_stop stop_at [] = stop_at
max_stop stop_at (c ∷ cs) = max_stop (if is_stop c then max stop_at c.id else stop_at) cs

abbrev pub ids : List Checkpoint → List ℕ
ids = map λ c. c.id

-- `cpids.drain_filter(|cp| *cp < stop_at)`
pub drop_below : ℕ → List ℕ → List ℕ
drop_below stop_at [] = []
drop_below stop_at (n ∷ ns) =
    let rest = drop_below stop_at ns in if ltb n stop_at then rest else n ∷ rest

unfoldable pub completed_checkpoint_ranges : List Checkpoint → List (ℕ × ℕ)
unfolding max_stop drop_below
completed_checkpoint_ranges docs =
    let stop_at : ℕ = max_stop 0 docs in
    if ltb 0 stop_at
    then make_descending_ranges (drop_below stop_at (sort_unstable (ids docs))) ++ (stop_at, 0) ∷ []
    else make_descending_ranges (ids docs)

-- The scan that the worker of a partition is spawned with.
unfoldable pub backfill_worker :
    (store : KeyStore) → Env → List Checkpoint → ℕ → ℕ → ℕ → Scan store → Scan store × Ended
unfolding completed_checkpoint_ranges
backfill_worker store env docs checkpoint_max num_checkpoint_workers partition s =
    do_scan store env checkpoint_max (completed_checkpoint_ranges docs) num_checkpoint_workers
      partition s
