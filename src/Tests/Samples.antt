-- ===== src/Tests/Samples.antt =====
-- Data that several tests share: a key store, an RPC client and its answers.
use huracan.Prelude.{ℕ, refl, true, false, none, some, List, [], ◌∷◌, elem, inl, inr, arith}
use huracan.Client.Changes.{created, mutated, other}
use huracan.Etl.Types.{backfill, Block, Page, page, failed, KeyStore, IsKeyStore}
use huracan.Etl.Scan.{Env, Scan}
use huracan.Etl.Scan.Flow.{IsFlowing}

abbrev pub list_store : KeyStore
list_store = record { Db = List ℕ; is_known = λ db k. elem k db; put = λ db k. k ∷ db }

pub list_store-IsKeyStore : IsKeyStore list_store
list_store-IsKeyStore = record { is_known-put = λ db k j. ground arith }

-- Checkpoint cp changes object 7 and creates object 100 + cp.
abbrev pub block : ℕ → Block
block cp = record {
  digest = cp;
  checkpoint = some cp;
  timestamp_ms = some 900;
  object_changes = some (created cp 1 ∷ mutated 7 cp ∷ other ∷ []);
}

abbrev pub last_page : ℕ → Page
last_page cp = record { blocks = block cp ∷ []; has_next_page = false; next_cursor = none }

abbrev pub sample_env : Env
sample_env = record {
  ingest_route = backfill;
  checkpointretries = 2;
  responses = λ cp. failed ∷ page 1000 (last_page cp) ∷ [];
  items_open = λ k. true;
  control_open = λ k. true;
  stop = λ cp. false;
}

pub sample_env-IsFlowing : IsFlowing sample_env
sample_env-IsFlowing = record {
  unstopped = λ cp. refl;
  items = λ k. refl;
  controls = λ k. refl;
  answers = λ cp. inr (inl (inl refl));
}

abbrev pub fresh : Scan list_store
fresh = record {
  db = some (7 ∷ []);
  sent = [];
  control = [];
  queries = [];
  num_objects = 0;
  tx_digest_once = none;
  is_closed = false;
}
