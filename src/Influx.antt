-- ===== src/Influx.antt =====
-- main/src/influx.rs: the points that the program writes to InfluxDB. Which points the client accepts
-- is a parameter.
pub mod Recorded
use Prim.Native.String.{String}
use huracan.Prelude.{ℕ, ◌+◌, Bool, true, false, List, [], ◌∷◌, ◌++◌, if◌then◌else◌}
use huracan.Prelude.Int.{ℤ}

pub data Metric : Type 0 where
  mongo_write_error start_livescan : Metric
  create_checkpoint checkpoint_error current_checkpoint final_checkpoint :
      (checkpoint_id : ℕ) → Metric
  ingest_error : (object_id error_type : String) → Metric
  rpc_error rpc_request : (rpc_method : String) → Metric
  checkpoints_behind pause_livescan : (behind_by : ℕ) → Metric
  backfill_init : (start_checkpoint : ℕ) → Metric
  extraction_latency : (source : String) (latency_ms : ℤ) → Metric

pub data FieldValue : Type 0 where
  unsigned : ℕ → FieldValue
  signed : ℤ → FieldValue
  characters : String → FieldValue

pub record Point : Type 0 where
  pub measurement : String
  pub time : ℕ
  pub tags : List (String × String)
  pub fields : List (String × FieldValue)

-- `into_query` of the struct of each metric, at a time in milliseconds.
module _ (time : ℕ) where
  abbrev pub bare : String → Point
  bare name = record { measurement = name; time = time; tags = []; fields = [] }

  abbrev pub with_field : String → String → FieldValue → Point
  with_field name key v = record {
    measurement = name;
    time = time;
    tags = [];
    fields = (key, v) ∷ [];
  }

  abbrev pub with_tag : String → String → String → Point
  with_tag name key v = record {
    measurement = name;
    time = time;
    tags = (key, v) ∷ [];
    fields = [];
  }

  unfoldable pub point : Metric → Point
  point mongo_write_error = bare "mongo_write_error"
  point start_livescan = bare "start_livescan"
  point (create_checkpoint cp) = with_field "create_checkpoint" "checkpoint_id" (unsigned cp)
  point (checkpoint_error cp) = with_field "checkpoint_error" "checkpoint_id" (unsigned cp)
  point (current_checkpoint cp) = with_field "current_checkpoint" "checkpoint_id" (unsigned cp)
  point (final_checkpoint cp) = with_field "final_checkpoint" "checkpoint_id" (unsigned cp)
  point (ingest_error object_id error_type) =
      record (with_tag "ingest_error" "error_type" error_type) {
        fields = ("object_id", characters object_id) ∷ [];
      }
  point (rpc_error rpc_method) = with_tag "rpc_error" "rpc_method" rpc_method
  point (rpc_request rpc_method) = with_tag "rpc_request" "rpc_method" rpc_method
  point (checkpoints_behind n) = with_field "checkpoints_behind" "behind_by" (unsigned n)
  point (pause_livescan n) = with_field "pause_livescan" "behind_by" (unsigned n)
  point (backfill_init cp) = with_field "backfill_init" "start_checkpoint" (unsigned cp)
  point (extraction_latency source ms) = record (with_tag "extraction_latency" "source" source) {
    fields = ("latency_ms", signed ms) ∷ [];
  }

-- What is written, and how many warnings are logged in place of it.
pub record Influx : Type 0 where
  pub points : List Point
  pub warnings : ℕ

-- `write_metric_...`, of any metric: an error of the query is logged and otherwise ignored.
unfoldable pub write_metric : (Point → Bool) → ℕ → Metric → Influx → Influx
unfolding point
write_metric accepts time m s =
    if accepts (point time m)
    then record s { points = s.points ++ point time m ∷ [] }
    else record s { warnings = s.warnings + 1 }
