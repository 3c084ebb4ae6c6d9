-- ===== src/Etl/Types.antt =====
-- main/src/etl.rs: the items that flow through the pipelines, and the RPC results that they come
-- from. Checkpoints, versions, digests, ids and times (u64 or opaque) are numbers.
use huracan.Prelude.{ℕ, ◌≡◌, Bool, ◌||◌, Option, List, ◌==◌}
use huracan.Client.Changes.{ObjectChange}

-- The last pipeline that an item has been through.
pub data IngestRoute : Type 0 where
  poll livescan backfill : IngestRoute

pub record ObjectItem : Type 0 where
  pub cp : ℕ
  pub deletion : Bool
  pub id : ℕ
  pub version : ℕ
  pub ts_sui : Option ℕ
  pub ts_first_seen : ℕ
  pub ingested_via : IngestRoute
  pub bytes : List ℕ

pub data StepStatus : Type 0 where
  ok err : StepStatus

-- `SuiTransactionBlockResponse` and `TransactionBlocksPage` of sui_sdk, as far as they are read;
-- `blocks` is the field `data` of the page.
pub record Block : Type 0 where
  pub digest : ℕ
  pub checkpoint : Option ℕ
  pub timestamp_ms : Option ℕ
  pub object_changes : Option (List ObjectChange)

pub record Page : Type 0 where
  pub blocks : List Block
  pub has_next_page : Bool
  pub next_cursor : Option ℕ

-- The outcome of one RPC call, with the time at which it was started.
pub data Response : Type 0 where
  page : (call_start_ts : ℕ) → Page → Response
  failed : Response

-- What `open_default`, `get_pinned` and `put` of RocksDB are relied on for.
pub record KeyStore : Type 1 where
  pub Db : Type 0
  pub is_known : Db → ℕ → Bool
  pub put : Db → ℕ → Db

-- A key is known after `put`, and no other key becomes known or unknown by it.
pub record IsKeyStore (store : KeyStore) : Type 0 where
  pub is_known-put :
      (db : store.Db) (k j : ℕ)
      → store.is_known (store.put db k) j ≡ (k == j || store.is_known db j)
