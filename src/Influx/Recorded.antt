-- ===== src/Influx/Recorded.antt =====
-- Which metrics reach InfluxDB.
use Prim.Native.String.{String}
use text.Mathlib.Text.{◌==◌}
use huracan.Prelude.{ℕ, ◌+◌, ◌≡◌, refl, Bool, true, false, List, [], ◌∷◌, ◌++◌, if◌then◌else◌}
use huracan.Influx.{
  Metric, mongo_write_error, start_livescan, create_checkpoint, checkpoint_error,
  current_checkpoint, final_checkpoint, ingest_error, rpc_error, rpc_request, checkpoints_behind,
  pause_livescan, backfill_init, extraction_latency, Point, point, Influx, write_metric,
}

abbrev pub is_empty {ℓ} : {A : Type ℓ} → List A → Bool
is_empty [] = true
is_empty (x ∷ xs) = false

-- The line protocol: a point has one field at least.
pub record NeedsField (accepts : Point → Bool) : Type 0 where
  pub without : (p : Point) → is_empty p.fields ≡ true → accepts p ≡ false
  pub with_one : (p : Point) → is_empty p.fields ≡ false → accepts p ≡ true

-- The metrics without a field.
abbrev pub counters : List String
counters = "mongo_write_error" ∷ "start_livescan" ∷ "rpc_error" ∷ "rpc_request" ∷ []

abbrev pub name_of : Metric → String
name_of mongo_write_error = "mongo_write_error"
name_of start_livescan = "start_livescan"
name_of (create_checkpoint cp) = "create_checkpoint"
name_of (checkpoint_error cp) = "checkpoint_error"
name_of (current_checkpoint cp) = "current_checkpoint"
name_of (final_checkpoint cp) = "final_checkpoint"
name_of (ingest_error id ty) = "ingest_error"
name_of (rpc_error m) = "rpc_error"
name_of (rpc_request m) = "rpc_request"
name_of (checkpoints_behind n) = "checkpoints_behind"
name_of (pause_livescan n) = "pause_livescan"
name_of (backfill_init cp) = "backfill_init"
name_of (extraction_latency s ms) = "extraction_latency"

abbrev pub is_one_of : String → List String → Bool
is_one_of s [] = false
is_one_of s (t ∷ ts) = if s == t then true else is_one_of s ts

-- Where InfluxDB takes the points with a field, and only those: a metric is written as its point, but
-- the four that carry no field, among them the counts of the requests to the RPC providers and of their
-- errors, never are: each leaves a warning in the log.
pub write_metric_lem :
    (accepts : Point → Bool)
    → NeedsField accepts
    → (time : ℕ) (m : Metric) (s : Influx)
    → write_metric accepts time m s ≡ (
        if is_one_of (name_of m) counters
        then record s { warnings = s.warnings + 1 }
        else record s { points = s.points ++ point time m ∷ [] })
unfolding write_metric
write_metric_lem accepts needs time mongo_write_error s =
    rw (needs.without (point time mongo_write_error) refl) refl
write_metric_lem accepts needs time start_livescan s =
    rw (needs.without (point time start_livescan) refl) refl
write_metric_lem accepts needs time (create_checkpoint cp) s =
    rw (needs.with_one (point time (create_checkpoint cp)) refl) refl
write_metric_lem accepts needs time (checkpoint_error cp) s =
    rw (needs.with_one (point time (checkpoint_error cp)) refl) refl
write_metric_lem accepts needs time (current_checkpoint cp) s =
    rw (needs.with_one (point time (current_checkpoint cp)) refl) refl
write_metric_lem accepts needs time (final_checkpoint cp) s =
    rw (needs.with_one (point time (final_checkpoint cp)) refl) refl
write_metric_lem accepts needs time (ingest_error id ty) s =
    rw (needs.with_one (point time (ingest_error id ty)) refl) refl
write_metric_lem accepts needs time (rpc_error r) s =
    rw (needs.without (point time (rpc_error r)) refl) refl
write_metric_lem accepts needs time (rpc_request r) s =
    rw (needs.without (point time (rpc_request r)) refl) refl
write_metric_lem accepts needs time (checkpoints_behind n) s =
    rw (needs.with_one (point time (checkpoints_behind n)) refl) refl
write_metric_lem accepts needs time (pause_livescan n) s =
    rw (needs.with_one (point time (pause_livescan n)) refl) refl
write_metric_lem accepts needs time (backfill_init cp) s =
    rw (needs.with_one (point time (backfill_init cp)) refl) refl
write_metric_lem accepts needs time (extraction_latency r ms) s =
    rw (needs.with_one (point time (extraction_latency r ms)) refl) refl
