-- ===== src/Etl/Backfill/Delivery.antt =====
-- What a backfill worker sends to the object workers and on the control channel.
use huracan.Prelude.{ℕ, suc, ◌≤◌, ◌≡◌, ◌⊎◌, inl, some, List, [], ◌∷◌, sub64, if◌then◌else◌, arith}
use huracan.Mongo.{Checkpoint}
use huracan.Etl.Types.{KeyStore, IsKeyStore}
use huracan.Etl.Scan.{Env, Scan, do_scan}
use huracan.Etl.Scan.Counts.{items_of}
use huracan.Etl.Scan.Ledger.{told, scan_loop-Exact}
use huracan.Etl.Scan.Known.{sends_of, scan_loop-Pays}
use huracan.Etl.Backfill.{completed_checkpoint_ranges, backfill_worker}

module _ (store : KeyStore) (env : Env) (docs : List Checkpoint) (n w p : ℕ) (s : Scan store) where
  -- Of a worker that starts with nothing sent: however its crawl goes and whenever it stops, it sends
  -- at most one control message for each checkpoint, and that states the number of items that the
  -- worker sent for the checkpoint.
  pub backfill_worker_exact :
      (x : ℕ)
      → 1 ≤ w
      → s.control ≡ []
      → s.sent ≡ []
      → let t = (backfill_worker store env docs n w p s).0 in
        (told x t.control ≡ []) ⊎ (told x t.control ≡ items_of x t.sent ∷ [])
  unfolding backfill_worker do_scan
  backfill_worker_exact x h c z =
      scan_loop-Exact store env w h x (suc (sub64 n p)) (sub64 n p)
        (completed_checkpoint_ranges docs) s (inl (ground arith))
        (λ low. (ground arith, ground arith))

  -- Of a worker with a key store that starts with nothing sent: it sends each object once at most,
  -- and never one whose key was known at the start.
  pub backfill_worker_once :
      IsKeyStore store
      → (db : store.Db) (id : ℕ) → s.db ≡ some db
      → s.sent ≡ []
      → sends_of id (backfill_worker store env docs n w p s).0.sent
        ≤ (if store.is_known db id then 0 else 1)
  unfolding backfill_worker do_scan
  backfill_worker_once laws db id e z =
      let (db', _, pays) =
        scan_loop-Pays store laws env id (suc (sub64 n p)) w (sub64 n p)
          (completed_checkpoint_ranges docs) s db e in
      ground (arith, pays)
