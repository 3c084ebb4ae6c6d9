-- ===== src/Etl/Livescan/Saved.antt =====
-- main/src/etl.rs: a livescan with one worker, from its crawl through the loop of `run` and the
-- pipeline to the saved checkpoints.
use huracan.Prelude.{
  ℕ, suc, ◌-◌, ◌%◌, ◌^◌, ◌≤◌, ◌<◌, ◌≡◌, ◌≢◌, refl, ◌∙◌, sym, ap, inl, inr, Option, none, some, List,
  [], ◌∷◌, ◌==◌, sub64, Bool-cases, arith,
}
use huracan.Client.Objects.{ObjectTypes}
use huracan.Etl.Types.{ObjectItem, KeyStore}
use huracan.Etl.Scan.{Env, Scan, do_scan}
use huracan.Etl.Scan.Counts.{items_of}
use huracan.Etl.Scan.Ledger.{told, scan_loop-Exact}
use huracan.Etl.Scan.Flow.{IsFlowing}
use huracan.Etl.Scan.Arrival.{IsArriving, scan_loop-Announced}
use huracan.Etl.Scan.Loop.{scan_loop-Silent}
use huracan.Etl.Scan.Falling.{AreUpTo, IsFalling, scan_loop-IsFalling}
use huracan.Etl.Transform.Balance.{items_for}
use huracan.Etl.Tail.Saved.{times}
use huracan.Etl.Pipeline.{Pipeline, init, World, Reach}
use huracan.Etl.Pipeline.Saved.{tail_of, IsExact}
use huracan.Etl.Pipeline.Complete.{IsLossless, IsDrained, drained-saved}
use huracan.Etl.Backfill.Workers.{new_scan}
use huracan.Etl.Livescan.{Txns, livescan_round, livescan_worker}
use huracan.Etl.Livescan.Workers.{livescan_worker_complete}
use huracan.Etl.Livescan.Grouped.{IsGrouped, livescan_round-told}

items_of_over :
    (x cp : ℕ) (is : List (Option ℕ × ObjectItem)) → AreUpTo cp is → cp < x → items_of x is ≡ 0
items_of_over x cp [] a h = refl
items_of_over x cp ((tx, item) ∷ is) (b, a) h = ground (arith, items_of_over x cp is a h)

-- Items that fall come one checkpoint after the other.
AreUpTo-IsGrouped :
    (cur : ℕ) (is : List (Option ℕ × ObjectItem)) → AreUpTo cur is → IsFalling is → IsGrouped cur is
AreUpTo-IsGrouped cur [] a f = tt
AreUpTo-IsGrouped cur ((tx, item) ∷ is) (h, a) (u, f) = (
  elim (Bool-cases (item.cp == cur)) [
    | inl same ↦ inl (ground arith)
    | inr other ↦
        inr (items_of_over cur item.cp ((tx, item) ∷ is) (omega arith, u) (ground (arith, h)))
  ],
  AreUpTo-IsGrouped item.cp is u f,
)

IsFalling-IsGrouped :
    (is : List (Option ℕ × ObjectItem)) → items_of 0 is ≡ 0 → IsFalling is → IsGrouped 0 is
IsFalling-IsGrouped [] none_there f = tt
IsFalling-IsGrouped ((tx, item) ∷ is) none_there (u, f) =
    (inr none_there, AreUpTo-IsGrouped item.cp is u f)

module _ (store : KeyStore) (env : Env) (n stop_at : ℕ) where
  -- The one worker of a livescan.
  abbrev pub one_crawl : Scan store
  one_crawl = (livescan_worker store env n stop_at 1 0 (new_scan store none)).0

  one_crawl-IsGrouped : IsGrouped 0 one_crawl.sent
  unfolding livescan_worker do_scan
  one_crawl-IsGrouped =
      let (_, silent) =
        scan_loop-Silent store env 1 0 (suc (sub64 n 0)) (sub64 n 0) ((stop_at, 0) ∷ [])
          (new_scan store none) (omega arith) (λ (p, _). absurd (omega (arith, p))) in
      IsFalling-IsGrouped one_crawl.sent silent (
        scan_loop-IsFalling store env 1 (omega arith) (suc (sub64 n 0)) (sub64 n 0)
          ((stop_at, 0) ∷ []) (new_scan store none) (tt, tt))

  one_crawl-IsExact : IsExact one_crawl.sent one_crawl.control
  unfolding livescan_worker do_scan
  one_crawl-IsExact x real =
      scan_loop-Exact store env 1 (omega arith) x (suc (sub64 n 0)) (sub64 n 0) ((stop_at, 0) ∷ [])
        (new_scan store none) (inl refl) (λ low. (refl, refl))

  one_crawl_announces :
      (x : ℕ)
      → IsFlowing env
      → IsArriving env
      → n < 2 ^ 64
      → 1 ≤ x
      → stop_at < x
      → x ≤ n
      → told x one_crawl.control ≢ []
  unfolding livescan_worker do_scan
  one_crawl_announces x flowing arriving fits low above high =
      let alone : (n - x) % 1 ≡ 0 = omega arith in
      let (_, a) = rw alone at (
        livescan_worker_complete store env n stop_at 1 x (new_scan store none) flowing (omega arith)
          fits low high refl refl) in
      scan_loop-Announced store env flowing arriving x (suc (sub64 n 0)) 1 (sub64 n 0)
        ((stop_at, 0) ∷ []) (new_scan store none) refl (λ e. cc) (a ∙ ground arith)

-- A livescan that forwards all its items passes on what its crawl has announced.
announced_by_round :
    (x cpcompletions latest_cp start_cp : ℕ) (polled_txs : List ℕ)
    (items : List (Option ℕ × ObjectItem)) (scan_control : List (ℕ × ℕ)) (m n : Txns)
    (control : List (ℕ × ℕ))
    → 1 ≤ x
    → IsGrouped 0 items
    → livescan_round cpcompletions latest_cp start_cp polled_txs items scan_control m
      ≡ some (n, items, control)
    → IsExact items scan_control
    → told x scan_control ≢ []
    → told x control ≡ items_of x items ∷ []
announced_by_round x cpcompletions latest_cp start_cp polled_txs items scan_control m n control low
      grouped e exact some_told =
    let a =
      livescan_round-told x cpcompletions latest_cp start_cp polled_txs items scan_control m n
        control low grouped e in
    elim (exact x low) [ inl z ↦ absurd (some_told z) | inr z ↦ ground (arith, a) ]

-- The pipeline of the livescans, over all items `fed` that it is ever sent, by the polling and by
-- livescans, in whatever order they come, and all control messages `said`. Of a livescan with one
-- worker that ends and forwards all items of its scan, where nothing from outside ends the crawl, the
-- last page of each checkpoint comes, each object that the RPC client returns is usable and no mongo
-- worker panics: once the pipeline is empty, each checkpoint above the last one of the previous
-- livescan up to the latest has been saved exactly once, if only this livescan has sent items of it and
-- announced it, and none of them was put back for a retry.
pub livescan_saved :
    (types : ObjectTypes) (world : World types) (store : KeyStore) (env : Env)
    (cpcompletions latest_cp start_cp stop_at : ℕ) (polled_txs : List ℕ) (m n : Txns)
    (control : List (ℕ × ℕ)) (fed : List (Option ℕ × ObjectItem)) (said : List (ℕ × ℕ)) (x : ℕ)
    (s : Pipeline)
    → IsFlowing env
    → IsArriving env
    → IsLossless types world
    → latest_cp < 2 ^ 64
    → let scan = one_crawl store env latest_cp stop_at in
      livescan_round cpcompletions latest_cp start_cp polled_txs scan.sent scan.control m
        ≡ some (n, scan.sent, control)
      → 1 ≤ x
      → stop_at < x
      → x ≤ latest_cp
      → items_of x fed ≡ items_of x scan.sent
      → told x said ≡ told x control
      → Reach types world (init fed said) s
      → IsDrained s
      → items_for x s.retries ≡ 0
      → times x (tail_of s).saved ≡ 1
livescan_saved types world store env cpcompletions latest_cp start_cp stop_at polled_txs m n control
      fed said x s flowing arriving lossless fits e low above high own spoken r dry retried =
    let scan = one_crawl store env latest_cp stop_at in
    let told_one =
      announced_by_round x cpcompletions latest_cp start_cp polled_txs scan.sent scan.control m n
        control low (one_crawl-IsGrouped store env latest_cp stop_at) e
        (one_crawl-IsExact store env latest_cp stop_at)
        (one_crawl_announces store env latest_cp stop_at x flowing arriving fits low above high) in
    drained-saved types world lossless fed said x s low
      (spoken ∙ told_one ∙ ap (λ k. k ∷ []) (sym own)) r dry retried
