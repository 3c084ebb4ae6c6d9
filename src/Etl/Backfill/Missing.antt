-- ===== src/Etl/Backfill/Missing.antt =====
-- What the workers of a backfill say about a checkpoint that is complete already.
use native.Mathlib.Nat.{mod-le, mod-lt}
use huracan.Prelude.{
  ℕ, suc, ◌+◌, ◌-◌, ◌%◌, ◌^◌, ◌≤◌, ◌<◌, ◌≡◌, ◌≢◌, refl, ◌∙◌, inl, inr, true, false, Option, List,
  [], ltb, sub64, Bool-cases, arith,
}
use huracan.Mongo.{Checkpoint}
use huracan.Etl.Types.{ObjectItem}
use huracan.Etl.Scan.Counts.{items_of}
use huracan.Etl.Scan.Ledger.{told}
use huracan.Etl.Scan.Queries.{asked}
use huracan.Etl.Scan.{do_scan}
use huracan.Etl.Scan.Loop.{scan_loop-Unasked}
use huracan.Etl.Backfill.{completed_checkpoint_ranges, backfill_worker}
use huracan.Etl.Backfill.Ranges.{is_complete}
use huracan.Etl.Backfill.Partition.{backfill_worker_sound}
use huracan.Etl.Backfill.Workers.{
  Workers, new_scan, interleaved_told, interleaved_items, crawled, Output, crawled-silent,
  own_worker,
}

module _ (workers : Workers) (docs : List Checkpoint) (n w : ℕ) (positive : 1 ≤ w)
    (room : w ≤ n + 1) (fits : n < 2 ^ 64) (x : ℕ) where
  crawled_complete :
      is_complete x docs ≡ true
      → 1 ≤ x
      → x ≤ n
      → let t = crawled workers docs n w ((n - x) % w) in
        (told x t.control ≡ []) × (items_of x t.sent ≡ 0)
  unfolding backfill_worker do_scan
  crawled_complete complete low high =
      let own : ℕ = (n - x) % w in
      let store = workers.store own in
      let env = workers.env own in
      let s = new_scan store (workers.db own) in
      let l = mod-lt (n - x) {m = w} positive in
      let k : own ≤ n = omega (arith, mod-le (n - x) w) in
      elim (Bool-cases (asked x (backfill_worker store env docs n w own s).0.queries)) [
        | inl a ↦ absurd (
            let (_, _, _, missing) =
              backfill_worker_sound store env docs n w positive fits x s own l k refl a in
            ground arith)
        | inr e ↦
            scan_loop-Unasked store env w x (suc (sub64 n own)) (sub64 n own)
              (completed_checkpoint_ranges docs) s positive e
      ]

  module _ (sent : List (Option ℕ × ObjectItem)) (control : List (ℕ × ℕ))
      (out : Output workers docs n w sent control) where
    off_share :
        n < x
        → (p : ℕ) → p < w
        → let t = crawled workers docs n w p in (told x t.control ≡ []) × (items_of x t.sent ≡ 0)
    off_share high p l =
        crawled-silent workers docs n w positive room fits x p l (λ low. absurd (omega arith))

    over_silent : n < x → (told x control ≡ []) × (items_of x sent ≡ 0)
    over_silent high = (
      interleaved_told x w (λ p. (crawled workers docs n w p).control) w control out.controls
            (λ p l e. (off_share high p l).0)
          ∙ ground arith,
      interleaved_items x w (λ p. (crawled workers docs n w p).sent) w sent out.items
            (λ p l e. (off_share high p l).1)
          ∙ ground arith,
    )

    -- The workers send nothing for a checkpoint that is complete.
    pub complete_silent :
        1 ≤ x → is_complete x docs ≡ true → (told x control ≡ []) × (items_of x sent ≡ 0)
    complete_silent low complete = elim (Bool-cases (ltb n x)) [
      | inl high ↦ over_silent (ground arith)
      | inr within ↦
          let (c, i) =
            own_worker workers docs n w positive room fits x sent control out (ground arith) in
          let (c', i') = crawled_complete complete low (ground arith) in (c ∙ c', i ∙ i')
    ]

    -- What is announced is in range and was missing.
    pub announced_missing : 1 ≤ x → told x control ≢ [] → (x ≤ n) × (is_complete x docs ≡ false)
    announced_missing low h = elim (Bool-cases (is_complete x docs)) [
      | inl complete ↦ absurd (h (complete_silent low complete).0)
      | inr missing ↦ elim (Bool-cases (ltb n x)) [
        | inl high ↦ absurd (h (over_silent (ground arith)).0)
        | inr within ↦ (ground arith, missing)
      ]
    ]
