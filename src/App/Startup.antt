-- ===== src/App/Startup.antt =====
-- When the program starts, and as what.
use text.Mathlib.Text.{◌==◌}
use huracan.Prelude.{
  ℕ, ◌≡◌, refl, ◌∙◌, Bool, true, false, not, ◌&&◌, ◌||◌, Option, none, some, List, [], ◌∷◌, length,
  if◌then◌else◌,
}
use huracan.Client.Rotation.{ClientPool, first_client, new}
use huracan.Conf.{RpcProviderConfig, AppConfig, new_config, pool_of, sui}
use huracan.App.{Mode, run_backfill_only, run, in_mode, with_config, choose_mode, main}

abbrev pub is_empty {ℓ} : {A : Type ℓ} → List A → Bool
is_empty [] = true
is_empty (x ∷ xs) = false

module _ (Level : Type 0) where
  -- The providers of the net, none for a net that is not known.
  abbrev pub providers_of : AppConfig Level → List RpcProviderConfig
  providers_of cfg =
      if cfg.net == "testnet"
      then cfg.sui.testnet
      else if cfg.net == "mainnet"
      then cfg.sui.mainnet
      else if cfg.net == "localnet"
      then cfg.sui.localnet
      else []

  abbrev pub may_start : AppConfig Level → Bool
  may_start cfg =
      not (cfg.rocksdbfile == "")
      && not (cfg.rocksdbfile == "/")
      && not (cfg.backfillonly && cfg.livescanonly)
      && not (is_empty (providers_of cfg))

  abbrev pub mode_of : AppConfig Level → Mode
  mode_of cfg = if cfg.backfillonly then run_backfill_only cfg.backfillstartcheckpoint else run

  sui_lem :
      (can_build : Bool) (cfg : AppConfig Level)
      → sui Level can_build cfg
        ≡ (if is_empty (providers_of cfg) then none else new can_build (length (providers_of cfg)))
  unfolding sui
  sui_lem can_build cfg =
      by_net (cfg.net == "testnet") (cfg.net == "mainnet") (cfg.net == "localnet") cfg.sui.testnet
        cfg.sui.mainnet cfg.sui.localnet
    where
      pool :
          (ps : List RpcProviderConfig)
          → pool_of Level can_build (some ps)
            ≡ (if is_empty ps then none else new can_build (length ps))
      pool [] = refl
      pool (p ∷ ps) = refl

      by_net :
          (a b c : Bool) (t m l : List RpcProviderConfig)
          → pool_of Level can_build
              (if a then some t else if b then some m else if c then some l else none)
            ≡ (let ps = if a then t else if b then m else if c then l else [] in
                if is_empty ps then none else new can_build (length ps))
      by_net true b c t m l = pool t
      by_net false true c t m l = pool m
      by_net false false true t m l = pool l
      by_net false false false t m l = refl

  sui_total :
      (can_build : Bool) (cfg : AppConfig Level)
      → sui Level can_build cfg ≡ (
          if can_build && not (is_empty (providers_of cfg))
          then some (first_client (length (providers_of cfg)))
          else none)
  unfolding new
  sui_total can_build cfg = sui_lem can_build cfg ∙ by_tests can_build (is_empty (providers_of cfg))
    where
      by_tests :
          (b n : Bool)
          → ◌≡◌ {A = Option ClientPool}
              (if n then none else new b (length (providers_of cfg)))
              (if b && not n then some (first_client (length (providers_of cfg))) else none)
      by_tests true true = refl
      by_tests true false = refl
      by_tests false true = refl
      by_tests false false = refl

  -- The order of the tests does not matter.
  in_mode_lem :
      (can_build : Bool) (named : AppConfig Level) (b l n : Bool) (cp : Option ℕ)
      (pool : ClientPool)
      → sui Level can_build named ≡ (if can_build && not n then some pool else none)
      → in_mode Level can_build named
          (if b && l then none else if b && not l then some (run_backfill_only cp) else some run)
        ≡ (if can_build && (not (b && l) && not n)
            then some (if b then run_backfill_only cp else run, pool)
            else none)
  in_mode_lem true named true true n cp pool h = refl
  in_mode_lem true named true false true cp pool h = rw h refl
  in_mode_lem true named true false false cp pool h = rw h refl
  in_mode_lem true named false l true cp pool h = rw h refl
  in_mode_lem true named false l false cp pool h = rw h refl
  in_mode_lem false named true true n cp pool h = refl
  in_mode_lem false named true false n cp pool h = rw h refl
  in_mode_lem false named false l n cp pool h = rw h refl

  with_config_lem :
      (can_build : Bool) (named : AppConfig Level) (a : Mode × ClientPool) (set_up e r t u : Bool)
      → in_mode Level can_build named (choose_mode Level named)
        ≡ (if can_build && (t && u) then some a else none)
      → with_config Level set_up can_build (if e || r then none else some named)
        ≡ (if set_up && can_build && (not e && not r && t && u) then some a else none)
  with_config_lem true named a true false false t u h = h
  with_config_lem false named a true false false t u h = h
  with_config_lem can_build named a false false false t u h = refl
  with_config_lem true named a true true r t u h = refl
  with_config_lem true named a true false true t u h = refl
  with_config_lem false named a true true r t u h = refl
  with_config_lem false named a true false true t u h = refl
  with_config_lem can_build named a false true r t u h = refl
  with_config_lem can_build named a false false true t u h = refl

  -- The program starts exactly when tracing and the singletons can be set up, the first RPC client can
  -- be built, the directory of the key store is neither empty nor the root, not both modes are switched
  -- on, and the net is known and has RPC providers. It then runs a backfill from the configured
  -- checkpoint if only that is switched on, else the polling, livescans and backfills, with a pool for
  -- all the providers of the net.
  pub main_lem :
      (set_up can_build : Bool) (cfg : AppConfig Level)
      → main Level set_up can_build cfg ≡ (
          if set_up && can_build && may_start cfg
          then some (mode_of cfg, first_client (length (providers_of cfg)))
          else none)
  unfolding main new_config choose_mode
  main_lem set_up can_build cfg =
      let named : AppConfig Level = record cfg {
        backfill = record (cfg.backfill) { name = "backfill" };
        livescan = record (cfg.livescan) { name = "livescan" };
      } in
      let pool = first_client (length (providers_of cfg)) in
      with_config_lem can_build named (mode_of cfg, pool) set_up (cfg.rocksdbfile == "")
        (cfg.rocksdbfile == "/") (not (cfg.backfillonly && cfg.livescanonly))
        (not (is_empty (providers_of cfg)))
        (in_mode_lem can_build named cfg.backfillonly cfg.livescanonly (is_empty (providers_of cfg))
          cfg.backfillstartcheckpoint pool (sui_total can_build named))
