-- ===== src/Etl/Backfill/Partition.antt =====
-- How the workers of a backfill share the checkpoints.
use native.Mathlib.Nat.{mod-le, div-add-mod', mod-lt, mod-eq_of_lt, add-mul-mod_self_right}
use huracan.Prelude.{
  ℕ, suc, ◌+◌, ◌-◌, ◌*◌, ◌/◌, ◌%◌, ◌^◌, ◌≤◌, ◌<◌, ◌≡◌, sym, ◌∙◌, inl, inr, true, false, not, List,
  sub64, eq-not, arith,
}
use huracan.Mongo.{Checkpoint}
use huracan.Utils.Coverage.{covered}
use huracan.Etl.Types.{KeyStore}
use huracan.Etl.Scan.{Env, Scan, exhausted, do_scan}
use huracan.Etl.Scan.Queries.{asked}
use huracan.Etl.Scan.Flow.{IsFlowing, Settles}
use huracan.Etl.Scan.Coverage.{OnGrid, scan_loop-Sound}
use huracan.Etl.Scan.Complete.{scan_loop-Reaches, scan_loop-HasEnded, HasEnded}
use huracan.Etl.Backfill.{completed_checkpoint_ranges, backfill_worker}
use huracan.Etl.Backfill.Ranges.{
  is_complete, covered-completed_checkpoint_ranges, completed_checkpoint_ranges-IsDescending,
}

pub sub64-exact : (a b : ℕ) → b ≤ a → a < 2 ^ 64 → sub64 a b ≡ a - b
sub64-exact a b h k = omega arith

-- The share of a checkpoint that lies on the grid of worker `p`.
pub share : (x j step p n : ℕ) → p < step → p ≤ n → x + j * step ≡ n - p → p ≡ (n - x) % step
share x j step p n h k e =
    let total : n - x ≡ p + j * step = omega arith in
    rw total (sym (mod-eq_of_lt h) ∙ sym (add-mul-mod_self_right p j step))

pub own_grid : (x step n : ℕ) → x ≤ n → x + (n - x) / step * step ≡ n - (n - x) % step
own_grid x step n h = omega (arith, div-add-mod' (n - x) step)

module _ (store : KeyStore) (env : Env) (docs : List Checkpoint) (n w : ℕ) where
  -- The crawl of each worker ends, whichever channel closes and whenever it is stopped, if the RPC
  -- client answers and its answers for each checkpoint come to a last page or use up the retries.
  pub backfill_worker_ends :
      (p : ℕ) (s : Scan store)
      → 1 ≤ w
      → ((cp : ℕ) → Settles env.checkpointretries env.checkpointretries (env.responses cp))
      → HasEnded (backfill_worker store env docs n w p s).1
  unfolding backfill_worker do_scan
  backfill_worker_ends p s h answers =
      scan_loop-HasEnded store env w h answers (suc (sub64 n p)) (sub64 n p)
        (completed_checkpoint_ranges docs) s (omega arith)

  module _ (positive : 1 ≤ w) (fits : n < 2 ^ 64) (x : ℕ) (s : Scan store) where
    -- A worker asks for no checkpoint but those from 1 to `checkpoint_max` that lie on its share and
    -- are not complete, and those asked for before.
    pub backfill_worker_sound :
        (p : ℕ)
        → p < w
        → p ≤ n
        → asked x s.queries ≡ false
        → asked x (backfill_worker store env docs n w p s).0.queries ≡ true
        → (1 ≤ x) × (x ≤ n) × (p ≡ (n - x) % w) × (is_complete x docs ≡ false)
    unfolding backfill_worker do_scan
    backfill_worker_sound p h k new a =
        elim (rw (sub64-exact n p k fits) at (
          scan_loop-Sound store env w positive x (suc (sub64 n p)) (sub64 n p)
            (completed_checkpoint_ranges docs) s (completed_checkpoint_ranges-IsDescending docs)
            a)) [
              | inl old ↦ cc
              | inr ((low, (j, e)), c) ↦ (
                low,
                omega arith,
                share x j w p n h k e,
                sym (covered-completed_checkpoint_ranges x docs) ∙ c,
              )
            ]

    -- When nothing from outside ends its task, the worker of the share `(checkpoint_max - x) % w`
    -- crawls to the end, and asks for a checkpoint x from 1 to `checkpoint_max` exactly when x is
    -- not complete.
    pub backfill_worker_complete :
        IsFlowing env
        → 1 ≤ x
        → x ≤ n
        → s.is_closed ≡ false
        → asked x s.queries ≡ false
        → let r = backfill_worker store env docs n w ((n - x) % w) s in
          (r.1 ≡ exhausted) × (asked x r.0.queries ≡ not (is_complete x docs))
    unfolding backfill_worker do_scan
    backfill_worker_complete flowing low high o new =
        let p : ℕ = (n - x) % w in
        let first : ℕ = sub64 n p in
        let less : p ≤ n - x = mod-le (n - x) w in
        let exact : first ≡ n - p = sub64-exact n p (omega arith) fits in
        let ranges : List (ℕ × ℕ) = completed_checkpoint_ranges docs in
        let (ends, on) =
          scan_loop-Reaches store env flowing w x (suc first) first ranges s positive (omega arith)
            o (completed_checkpoint_ranges-IsDescending docs) in
        let c : covered x ranges ≡ is_complete x docs =
          covered-completed_checkpoint_ranges x docs in
        let g : OnGrid w first x = (low, ((n - x) / w, own_grid x w n high ∙ sym exact)) in
        (
          ends,
          eq-not (asked x (backfill_worker store env docs n w p s).0.queries) (is_complete x docs)
              (λ fresh. on (inr (g, c ∙ fresh)))
              (λ a.
                (backfill_worker_sound p (mod-lt (n - x) {m = w} positive) (omega arith) new a).3),
        )
