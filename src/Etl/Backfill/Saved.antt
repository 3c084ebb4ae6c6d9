-- ===== src/Etl/Backfill/Saved.antt =====
-- main/src/etl.rs: a whole backfill, from the crawls of its workers through the pipeline to the saved
-- checkpoints.
use huracan.Prelude.{ℕ, ◌+◌, ◌^◌, ◌≤◌, ◌<◌, ◌≡◌, inl, inr, false, Option, List}
use huracan.Mongo.{Checkpoint}
use huracan.Client.Objects.{ObjectTypes}
use huracan.Etl.Types.{ObjectItem}
use huracan.Etl.Scan.Flow.{IsFlowing}
use huracan.Etl.Scan.Arrival.{IsArriving}
use huracan.Etl.Transform.Balance.{items_for}
use huracan.Etl.Tail.Saved.{times}
use huracan.Etl.Pipeline.{Pipeline, init, World, Reach}
use huracan.Etl.Pipeline.Saved.{tail_of}
use huracan.Etl.Pipeline.Complete.{IsLossless, IsDrained, drained-saved}
use huracan.Etl.Backfill.Ranges.{is_complete}
use huracan.Etl.Backfill.Workers.{Workers, Output, workers-IsExact, workers_announce}

-- No crawl is ended from outside, and the last page of each checkpoint comes.
pub record IsUndisturbed (workers : Workers) : Type 0 where
  pub flowing : (p : ℕ) → IsFlowing (workers.env p)
  pub arriving : (p : ℕ) → IsArriving (workers.env p)

module _ (types : ObjectTypes) (world : World types) (workers : Workers) (docs : List Checkpoint)
    (n w : ℕ) where
  -- Of a backfill whose crawls are not ended from outside and get the last page of each checkpoint,
  -- where each object that the RPC client returns is usable and no mongo worker panics: once the
  -- channels are empty, each checkpoint from 1 to `checkpoint_max` that was not complete at the start
  -- has been saved exactly once, if none of its items was put back for a retry. There are not more
  -- workers than the numbers from 0 to `checkpoint_max`.
  pub backfill_saved :
      (sent : List (Option ℕ × ObjectItem)) (control : List (ℕ × ℕ)) (x : ℕ) (s : Pipeline)
      → 1 ≤ w
      → w ≤ n + 1
      → n < 2 ^ 64
      → IsUndisturbed workers
      → IsLossless types world
      → Output workers docs n w sent control
      → 1 ≤ x
      → x ≤ n
      → is_complete x docs ≡ false
      → Reach types world (init sent control) s
      → IsDrained s
      → items_for x s.retries ≡ 0
      → times x (tail_of s).saved ≡ 1
  backfill_saved sent control x s positive room fits calm lossless out low high missing r dry
        retried =
      let exact = workers-IsExact workers docs n w positive room fits sent control out in
      elim (exact x low) [
        | inl e ↦ absurd (
            workers_announce workers docs n w positive room fits sent control x out calm.flowing
              calm.arriving low high missing e)
        | inr e ↦ drained-saved types world lossless sent control x s low e r dry retried
      ]
