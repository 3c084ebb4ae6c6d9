-- ===== src/Conf.antt =====
-- main/src/conf.rs: the configuration, what AppConfig::new asks of it, and the choice of the RPC
-- providers. Reading config.yaml and the environment is the work of figment: a configuration is given
-- as it is extracted. The log levels of tracing are a parameter.
use Prim.Native.String.{String}
use text.Mathlib.Text.{◌==◌}
use huracan.Prelude.{ℕ, Bool, ◌||◌, Option, none, some, List, [], ◌∷◌, length, if◌then◌else◌}
use huracan.Prelude.Int.{ℤ}
use huracan.Client.Rotation.{ClientPool, new}

pub record QueueBuffersConfig : Type 0 where
  pub checkpointout : ℕ
  pub cpcompletions : ℕ
  pub mongoinfactor : ℕ
  pub last : ℕ

pub record WorkersConfig : Type 0 where
  pub checkpoint : Option ℕ
  pub object : Option ℕ
  pub mongo : Option ℕ

pub record ObjectQueriesConfig : Type 0 where
  pub batchsize : ℕ
  pub batchwaittimeoutms : ℕ

pub record MongoPipelineStepConfig : Type 0 where
  pub batchsize : ℕ
  pub batchwaittimeoutms : ℕ
  pub retries : ℕ
  pub zstdlevel : ℤ

pub record PipelineConfig : Type 0 where
  pub name : String
  pub queuebuffers : QueueBuffersConfig
  pub workers : WorkersConfig
  pub objectqueries : ObjectQueriesConfig
  pub mongo : MongoPipelineStepConfig
  pub checkpointretries : ℕ
  pub checkpointretrytimeoutms : ℕ
  pub tracklatency : Bool

pub record MongoConfig : Type 0 where
  pub uri : String
  pub db : String
  pub collectionbase : String

pub record PulsarConfig : Type 0 where
  pub url : String
  pub issuer : String
  pub credentials : String
  pub audience : String
  pub topicbase : String

pub record InfluxConfig : Type 0 where
  pub database : String
  pub token : String
  pub url : String

pub record RpcProviderConfig : Type 0 where
  pub url : String
  pub name : String
  pub objectsquerylimit : ℕ

pub record SuiConfig : Type 0 where
  pub testnet : List RpcProviderConfig
  pub mainnet : List RpcProviderConfig
  pub localnet : List RpcProviderConfig

pub record Whitelist : Type 0 where
  pub enabled : Bool
  pub packages : Option (List String)

pub record Blacklist : Type 0 where
  pub enabled : Bool
  pub packages : Option (List String)

module _ (Level : Type 0) where
  pub record LogConfig : Type 0 where
    pub level : Level
    pub filter : Option (List String)
    pub output : String
    pub logfilepath : String
    pub tokioconsole : Bool

  pub record AppConfig : Type 0 where
    pub env : String
    pub net : String
    pub rocksdbfile : String
    pub backfill : PipelineConfig
    pub livescan : PipelineConfig
    pub backfillthreshold : ℕ
    pub pausepollonbackfill : Bool
    pub pollintervalms : ℕ
    pub mongo : MongoConfig
    pub pulsar : PulsarConfig
    pub influx : InfluxConfig
    pub sui : SuiConfig
    pub log : LogConfig
    pub backfillonly : Bool
    pub livescanonly : Bool
    pub backfillstartcheckpoint : Option ℕ
    pub whitelist : Whitelist
    pub blacklist : Blacklist

  -- `AppConfig::new`, from what figment extracts; it panics on two paths that must not be removed.
  unfoldable pub new_config : AppConfig → Option AppConfig
  new_config extracted =
      if extracted.rocksdbfile == "" || extracted.rocksdbfile == "/"
      then none
      else some (record extracted {
        backfill = record (extracted.backfill) { name = "backfill" };
        livescan = record (extracted.livescan) { name = "livescan" };
      })

  unfoldable pub providers : AppConfig → Option (List RpcProviderConfig)
  providers cfg =
      if cfg.net == "testnet"
      then some cfg.sui.testnet
      else if cfg.net == "mainnet"
      then some cfg.sui.mainnet
      else if cfg.net == "localnet"
      then some cfg.sui.localnet
      else none

  -- `can_build` is whether the client of the first provider can be built.
  abbrev pub pool_of : (can_build : Bool) → Option (List RpcProviderConfig) → Option ClientPool
  pool_of can_build none = none
  pool_of can_build (some []) = none
  pool_of can_build (some (p ∷ ps)) = new can_build (length (p ∷ ps))

  unfoldable pub sui : (can_build : Bool) → AppConfig → Option ClientPool
  unfolding providers
  sui can_build cfg = pool_of can_build (providers cfg)
