-- ===== src/Etl/Livescan.antt =====
-- main/src/etl.rs: the loop of `run` that follows the chain: the decision between backfill and
-- livescan, the memory of transactions that the polling task has seen, and the count of the items of
-- each checkpoint. The answers of MongoDB and of the RPC client, and the items of the scan, are
-- arguments. i64 arithmetic wraps, as in a release build.
pub mod Memory
pub mod Skips
pub mod Workers
pub mod Grouped
pub mod Announced
pub mod Rounds
pub mod Saved
use huracan.Prelude.{
  ℕ, zero, suc, ◌+◌, ◌-◌, ◌≤◌, Bool, true, false, Option, none, some, List, [], ◌∷◌, ◌++◌, ltb, leb,
  ◌==◌, not, ◌&&◌, ◌≡◌, if◌then◌else◌, length, sub64, max,
}
use huracan.Prelude.Int.{
  ℤ, pos, negsuc, is_pos, is_neg, pos_part, to_i64, neg_i64, abs_i64, sub_i64,
}
use huracan.Etl.Types.{ObjectItem, KeyStore}
use huracan.Etl.Scan.{Env, Scan, Ended, do_scan}

-- What a round of the loop does once it knows the latest checkpoint.
pub data Plan : Type 0 where
  backfill : (pause : Bool) → Plan
  idle livescan : Plan

-- `AppConfig`, as far as the loop reads it.
pub record Settings : Type 0 where
  pub backfillthreshold : ℕ
  pub pausepollonbackfill : Bool
  pub livescanonly : Bool
  pub cpcompletions : ℕ

-- How far behind: `latest_cp - last_completed_cp.unwrap_or(0)` on u64.
unfoldable pub behind : ℕ → Option ℕ → ℕ
behind latest_cp last_completed_cp =
    sub64 latest_cp (elim last_completed_cp [ none ↦ 0 | some cp ↦ cp ])

unfoldable pub plan :
    Settings → (latest_cp : ℕ) → (last_completed_cp : Option ℕ) → (last_livescan_cp : ℕ) → Plan
unfolding behind
plan s latest_cp last_completed_cp last_livescan_cp =
    if ltb s.backfillthreshold (behind latest_cp last_completed_cp) && not s.livescanonly
    then backfill s.pausepollonbackfill
    else if latest_cp == last_livescan_cp
    then idle
    else livescan

-- `if max_cp > 0 { last_livescan_cp = max_cp }`, after the backfill has ended.
abbrev pub after_backfill : ℕ → ℕ → ℕ
after_backfill max_cp last_livescan_cp = if ltb 0 max_cp then max_cp else last_livescan_cp

-- `txns_already_processed`: what is stored for a digest.
abbrev pub Txns : Type 0
Txns = ℕ → Option ℤ

abbrev pub set : ℕ → Option ℤ → Txns → Txns
set tx v m k = if k == tx then v else m k

-- `(latest_cp - start_cp_for_offset).max(1) as i64`
unfoldable pub cp_offset_marker : ℕ → ℕ → ℤ
cp_offset_marker latest_cp start_cp_for_offset =
    to_i64 (max (sub64 latest_cp start_cp_for_offset) 1)

-- `try_insert` for a digest from the polling side; `none` is the `unreachable!()`.
unfoldable pub polled : ℤ → ℕ → Txns → Option Txns
polled marker tx m = elim (m tx) [
  | none ↦ some (set tx (some marker) m)
  | some v ↦ if is_pos v then some m else if is_neg v then some (set tx none m) else none
]

-- `try_insert` for a digest from the scan, and the new value of `skip`.
unfoldable pub scanned : ℤ → ℕ → Txns → Option (Txns × Bool)
scanned marker tx m = elim (m tx) [
  | none ↦ some (set tx (some (neg_i64 marker)) m, false)
  | some v ↦
      if is_neg v then some (m, false) else if is_pos v then some (set tx none m, true) else none
]

-- `drain_filter(|_, v| latest_cp as i64 - v.abs() > 120)`
unfoldable pub gc : ℕ → Txns → Txns
gc latest_cp m tx = elim (m tx) [
  | none ↦ none
  | some v ↦ if ltb 120 (pos_part (sub_i64 (to_i64 latest_cp) (abs_i64 v))) then none else some v
]

-- The digests that are taken from the polling side before a scan.
unfoldable pub take_polled : ℤ → List ℕ → Txns → Option Txns
unfolding polled
take_polled marker [] m = some m
take_polled marker (tx ∷ txs) m = elim (polled marker tx m) [
  | none ↦ none
  | some n ↦ take_polled marker txs n
]

-- The local variables of the loop over the items of a scan, and what it sends.
pub record Follow : Type 0 where
  pub txns : Txns
  pub cur_cp : ℕ
  pub num_items : ℕ
  pub skip : Bool
  pub control : List (ℕ × ℕ)
  pub forwarded : List (Option ℕ × ObjectItem)

abbrev pub begin : Txns → Follow
begin m = record { txns = m; cur_cp = 0; num_items = 0; skip = false; control = []; forwarded = [] }

-- The part for an item that brings the digest of its transaction.
pub look_up : ℤ → Option ℕ → Follow → Option Follow
unfolding scanned
look_up marker none f = some f
look_up marker (some tx) f = elim (scanned marker tx f.txns) [
  | none ↦ none
  | some (m, s) ↦ some (record f { txns = m; skip = s })
]

-- `if cur_cp != cp`
pub change_checkpoint : ℕ → Follow → Follow
change_checkpoint cp f = if f.cur_cp == cp then f else record f {
  control = (if f.cur_cp == 0 then f.control else f.control ++ (f.cur_cp, f.num_items) ∷ []);
  cur_cp = cp;
  num_items = 0;
}

-- From `num_items += 1` on. The u32 counter does not wrap: a checkpoint has fewer items.
pub count_item : Option ℕ → ObjectItem → Follow → Follow
count_item tx item f = record f {
  num_items = f.num_items + 1;
  forwarded = (if f.skip then f.forwarded else f.forwarded ++ (tx, item) ∷ []);
}

-- The loop over the items, while the receivers are there; `none` is the `unreachable!()`.
unfoldable pub follow : ℤ → List (Option ℕ × ObjectItem) → Follow → Option Follow
unfolding look_up change_checkpoint count_item
follow marker [] f = some f
follow marker ((tx, item) ∷ rest) f = elim (look_up marker tx f) [
  | none ↦ none
  | some g ↦ follow marker rest (count_item tx item (change_checkpoint item.cp g))
]

-- The message for the last checkpoint, and those of the scan about checkpoints without items.
pub pass_empty : List (ℕ × ℕ) → List (ℕ × ℕ)
pass_empty [] = []
pass_empty ((cp, n) ∷ ms) = let rest = pass_empty ms in if n == 0 then (cp, n) ∷ rest else rest

unfoldable pub finish : List (ℕ × ℕ) → Follow → List (ℕ × ℕ)
unfolding pass_empty
finish scan_control f =
    (if f.cur_cp == 0 then f.control else f.control ++ (f.cur_cp, f.num_items) ∷ [])
    ++ pass_empty scan_control

-- The polled digests are taken, old ones are dropped, the items of the scan followed. The result is
-- the memory for the next round, what was forwarded, and the control messages.
unfoldable pub follow_scan :
    (latest_cp start_cp : ℕ)
    → (polled_txs : List ℕ) → (items : List (Option ℕ × ObjectItem)) → (scan_control : List (ℕ × ℕ))
    → Txns
    → Option (Txns × List (Option ℕ × ObjectItem) × List (ℕ × ℕ))
unfolding take_polled gc follow finish cp_offset_marker
follow_scan latest_cp start_cp polled_txs items scan_control m =
    let marker : ℤ = cp_offset_marker latest_cp start_cp in
    elim (take_polled marker polled_txs m) [
      | none ↦ none
      | some n ↦ elim (follow marker items (begin (gc latest_cp n))) [
        | none ↦ none
        | some f ↦ some (f.txns, f.forwarded, finish scan_control f)
      ]
    ]

-- The channel of `spawn_livescan` for the control messages is bounded, by a capacity that must not be
-- 0, and read only after the items have ended. The items end once all workers have, and a worker that
-- finds the channel full waits.
abbrev pub has_room : ℕ → List (ℕ × ℕ) → Bool
has_room cpcompletions scan_control = ltb 0 cpcompletions && leb (length scan_control) cpcompletions

-- A livescan, given all that its workers send if none has to wait. It is `none` also if it never ends,
-- since a worker waits for room in the channel and the loop for the end of the items.
unfoldable pub livescan_round :
    (cpcompletions latest_cp start_cp : ℕ)
    → (polled_txs : List ℕ) → (items : List (Option ℕ × ObjectItem)) → (scan_control : List (ℕ × ℕ))
    → Txns
    → Option (Txns × List (Option ℕ × ObjectItem) × List (ℕ × ℕ))
unfolding follow_scan
livescan_round cpcompletions latest_cp start_cp polled_txs items scan_control m =
    if has_room cpcompletions scan_control
    then follow_scan latest_cp start_cp polled_txs items scan_control m
    else none

-- A livescan that ends has followed its scan.
pub livescan_round-follow_scan :
    (cpcompletions latest_cp start_cp : ℕ) (polled_txs : List ℕ)
    (items : List (Option ℕ × ObjectItem)) (scan_control : List (ℕ × ℕ)) (m : Txns)
    (r : Txns × List (Option ℕ × ObjectItem) × List (ℕ × ℕ))
    → livescan_round cpcompletions latest_cp start_cp polled_txs items scan_control m ≡ some r
    → follow_scan latest_cp start_cp polled_txs items scan_control m ≡ some r
unfolding livescan_round
livescan_round-follow_scan cpcompletions latest_cp start_cp polled_txs items scan_control m r e =
    by_room (has_room cpcompletions scan_control) e
  where
    by_room :
        (b : Bool)
        → (if b then follow_scan latest_cp start_cp polled_txs items scan_control m else none)
          ≡ some r
        → follow_scan latest_cp start_cp polled_txs items scan_control m ≡ some r
    by_room true e = e
    by_room false e = absurd cc

-- The worker of a partition that `spawn_livescan` starts: all up to the last checkpoint of the
-- previous livescan counts as completed, and there is no key store. Its `Env` has the route of livescans.
unfoldable pub livescan_worker :
    (store : KeyStore)
    → Env
    → (checkpoint_max stop_at_cp num_checkpoint_workers partition : ℕ) → Scan store
    → Scan store × Ended
livescan_worker store env checkpoint_max stop_at_cp num_checkpoint_workers partition s =
    do_scan store env checkpoint_max ((stop_at_cp, 0) ∷ []) num_checkpoint_workers partition
      (record s { db = none })
