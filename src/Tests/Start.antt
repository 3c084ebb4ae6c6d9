-- ===== src/Tests/Start.antt =====
-- A start of the program, the names it uses, and its metrics.
use huracan.Prelude.{ℕ, ◌≡◌, refl, Bool, true, false, not, none, some, [], ◌∷◌, ap}
use huracan.Prelude.Int.{pos}
use huracan.Client.Rotation.{first_client}
use huracan.Conf.{RpcProviderConfig, PipelineConfig, AppConfig}
use huracan.App.{run_backfill_only, main, producer_topic, transaction_topic}
use huracan.App.Startup.{main_lem}
use huracan.Influx.{Point, point, rpc_request, current_checkpoint, write_metric}
use huracan.Influx.Recorded.{is_empty, NeedsField, write_metric_lem}

abbrev provider : RpcProviderConfig
provider = record { url = "http://localhost:9000"; name = "local"; objectsquerylimit = 50 }

abbrev pipeline : PipelineConfig
pipeline = record {
  name = "";
  queuebuffers = record { checkpointout = 4; cpcompletions = 4; mongoinfactor = 1; last = 1 };
  workers = record { checkpoint = some 4; object = some 8; mongo = some 2 };
  objectqueries = record { batchsize = 50; batchwaittimeoutms = 100 };
  mongo = record { batchsize = 100; batchwaittimeoutms = 100; retries = 3; zstdlevel = pos 1 };
  checkpointretries = 5;
  checkpointretrytimeoutms = 100;
  tracklatency = true;
}

-- Log levels stand as numbers.
abbrev config : AppConfig ℕ
config = record {
  env = "dev";
  net = "mainnet";
  rocksdbfile = "/opt/indexer-data/backfill.tmp.db";
  backfill = pipeline;
  livescan = pipeline;
  backfillthreshold = 3;
  pausepollonbackfill = false;
  pollintervalms = 100;
  mongo = record { uri = "mongodb://localhost"; db = "sui"; collectionbase = "objects" };
  pulsar = record {
    url = "";
    issuer = "";
    credentials = "";
    audience = "";
    topicbase = "persistent://public/default/";
  };
  influx = record { database = ""; token = ""; url = "" };
  sui = record { testnet = []; mainnet = provider ∷ provider ∷ []; localnet = provider ∷ [] };
  log = record {
    level = 3;
    filter = none;
    output = "stdout";
    logfilepath = "";
    tokioconsole = false;
  };
  backfillonly = true;
  livescanonly = false;
  backfillstartcheckpoint = some 1;
  whitelist = record { enabled = false; packages = none };
  blacklist = record { enabled = false; packages = none };
}

main_lem_example : main ℕ true true config ≡ some (run_backfill_only (some 1), first_client 2)
main_lem_example = main_lem ℕ true true config

no_provider : main ℕ true true (record config { net = "testnet" }) ≡ none
no_provider = main_lem ℕ true true (record config { net = "testnet" })

no_client : main ℕ true false config ≡ none
no_client = main_lem ℕ true false config

topic :
    producer_topic ℕ config "retries" ≡ "persistent://public/default/dev_mainnet_objects_retries"
unfolding producer_topic
topic = refl

-- The topic of the transactions ends with an underscore.
transactions : transaction_topic ℕ config "tx" ≡ "persistent://public/default/dev_mainnet_tx_"
unfolding transaction_topic
transactions = refl

abbrev accepts : Point → Bool
accepts p = not (is_empty p.fields)

accepts-NeedsField : NeedsField accepts
accepts-NeedsField = record { without = λ p e. ap not e; with_one = λ p e. ap not e }

write_metric_lem_example :
    write_metric accepts 1000 (rpc_request "sui_getEvents") (record { points = []; warnings = 0 })
    ≡ record { points = []; warnings = 1 }
write_metric_lem_example =
    write_metric_lem accepts accepts-NeedsField 1000 (rpc_request "sui_getEvents")
      (record { points = []; warnings = 0 })

checkpoint_written :
    write_metric accepts 1000 (current_checkpoint 8) (record { points = []; warnings = 0 })
    ≡ record { points = point 1000 (current_checkpoint 8) ∷ []; warnings = 0 }
unfolding write_metric
checkpoint_written = refl
