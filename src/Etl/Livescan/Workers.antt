-- ===== src/Etl/Livescan/Workers.antt =====
-- The checkpoints of a livescan.
use native.Mathlib.Nat.{mod-le}
use huracan.Prelude.{
  ℕ, suc, ◌-◌, ◌/◌, ◌%◌, ◌^◌, ◌≤◌, ◌<◌, ◌≡◌, sym, ◌∙◌, inl, inr, true, false, not, ltb, none, List,
  [], ◌∷◌, sub64, eq-not, arith,
}
use huracan.Utils.Coverage.{covered}
use huracan.Utils.Order.{IsDescending}
use huracan.Etl.Types.{KeyStore}
use huracan.Etl.Scan.{Env, Scan, exhausted, do_scan}
use huracan.Etl.Scan.Queries.{asked}
use huracan.Etl.Scan.Flow.{IsFlowing}
use huracan.Etl.Scan.Coverage.{OnGrid, scan_loop-Sound}
use huracan.Etl.Scan.Complete.{scan_loop-Reaches}
use huracan.Etl.Backfill.Partition.{sub64-exact, own_grid}
use huracan.Etl.Livescan.{livescan_worker}

stop_range : (x stop_at : ℕ) → covered x ((stop_at, 0) ∷ []) ≡ not (ltb stop_at x)
stop_range x stop_at = ground arith

-- When nothing from outside ends its task, the worker of the share `(checkpoint_max - x) % w` of a
-- livescan crawls to the end, and asks for a checkpoint x from 1 to `checkpoint_max` exactly when it
-- is above the last checkpoint of the previous livescan.
pub livescan_worker_complete :
    (store : KeyStore) (env : Env) (n stop_at w x : ℕ) (s : Scan store)
    → IsFlowing env
    → 1 ≤ w
    → n < 2 ^ 64
    → 1 ≤ x
    → x ≤ n
    → s.is_closed ≡ false
    → asked x s.queries ≡ false
    → let r = livescan_worker store env n stop_at w ((n - x) % w) s in
      (r.1 ≡ exhausted) × (asked x r.0.queries ≡ ltb stop_at x)
unfolding livescan_worker do_scan
livescan_worker_complete store env n stop_at w x s flowing positive fits low high o new =
    let p : ℕ = (n - x) % w in
    let first : ℕ = sub64 n p in
    let less : p ≤ n - x = mod-le (n - x) w in
    let exact : first ≡ n - p = sub64-exact n p (omega arith) fits in
    let ranges : List (ℕ × ℕ) = (stop_at, 0) ∷ [] in
    let t : Scan store = record s { db = none } in
    let sorted : IsDescending 0 ranges = (omega arith, tt) in
    let (ends, on) =
      scan_loop-Reaches store env flowing w x (suc first) first ranges t positive (omega arith) o
        sorted in
    let c : covered x ranges ≡ not (ltb stop_at x) = stop_range x stop_at in
    let g : OnGrid w first x = (low, ((n - x) / w, own_grid x w n high ∙ sym exact)) in
    let r = livescan_worker store env n stop_at w p s in
    let sound : asked x r.0.queries ≡ true → covered x ranges ≡ false = (λ a.
      elim (scan_loop-Sound store env w positive x (suc first) first ranges t sorted a) [
        | inl old ↦ cc
        | inr (grid, fresh) ↦ fresh
      ]) in
    let same : asked x r.0.queries ≡ not (covered x ranges) =
      eq-not (asked x r.0.queries) (covered x ranges) (λ fresh. on (inr (g, fresh))) sound in
    (ends, ground arith)
