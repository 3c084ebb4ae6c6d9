-- ===== src/App.antt =====
-- main/src/main.rs: which mode the program starts, with main/src/etl.rs: how run_backfill_only and
-- spawn_backfill_pipeline begin, and main/src/pulsar.rs: the topics. Whether tracing and the
-- singletons can be set up, and whether the first RPC client can be built, are arguments.
pub mod Startup
use Prim.Native.String.{String, ◌++◌}
use huracan.Prelude.{ℕ, Bool, true, false, not, ◌&&◌, Option, none, some, if◌then◌else◌}
use huracan.Client.Rotation.{ClientPool}
use huracan.Conf.{PipelineConfig, AppConfig, new_config, sui}

pub data Mode : Type 0 where
  run_backfill_only : Option ℕ → Mode
  run : Mode

module _ (Level : Type 0) where
  unfoldable pub choose_mode : AppConfig Level → Option Mode
  choose_mode cfg =
      if cfg.backfillonly && cfg.livescanonly
      then none
      else if cfg.backfillonly && not cfg.livescanonly
      then some (run_backfill_only cfg.backfillstartcheckpoint)
      else some run

  -- The mode and the clients that it starts with; nothing if the program fails or panics before.
  abbrev pub with_pool : Mode → Option ClientPool → Option (Mode × ClientPool)
  with_pool m none = none
  with_pool m (some pool) = some (m, pool)

  abbrev pub in_mode :
      (can_build : Bool) → AppConfig Level → Option Mode → Option (Mode × ClientPool)
  in_mode can_build cfg none = none
  in_mode can_build cfg (some m) = with_pool m (sui Level can_build cfg)

  abbrev pub with_config :
      (set_up can_build : Bool) → Option (AppConfig Level) → Option (Mode × ClientPool)
  with_config set_up can_build none = none
  with_config set_up can_build (some cfg) =
      if set_up then in_mode can_build cfg (choose_mode cfg) else none

  unfoldable pub main : (set_up can_build : Bool) → AppConfig Level → Option (Mode × ClientPool)
  main set_up can_build extracted = with_config set_up can_build (new_config Level extracted)

  -- The directory of the key store, which is removed before a backfill opens it.
  unfoldable pub rocksdb_path : AppConfig Level → PipelineConfig → String
  rocksdb_path cfg pc = cfg.rocksdbfile ++ "_" ++ pc.name

  unfoldable pub producer_topic : AppConfig Level → String → String
  producer_topic cfg suffix =
      cfg.pulsar.topicbase ++ cfg.env ++ "_" ++ cfg.net ++ "_" ++ cfg.mongo.collectionbase ++ "_"
      ++ suffix

  unfoldable pub transaction_topic : AppConfig Level → String → String
  transaction_topic cfg suffix =
      cfg.pulsar.topicbase ++ cfg.env ++ "_" ++ cfg.net ++ "_" ++ suffix ++ "_"

-- The first checkpoint of a backfill; `unwrap` panics where the RPC client has no answer.
unfoldable pub checkpoint_max : Option ℕ → Option ℕ → Option ℕ
checkpoint_max none latest = latest
checkpoint_max (some start) latest = some start
