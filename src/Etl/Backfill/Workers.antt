-- ===== src/Etl/Backfill/Workers.antt =====
-- main/src/etl.rs: the workers that `spawn_backfill_pipeline` spawns, together. They run at the same
-- time and share the key store and the channels: each has an environment and a key store of its own,
-- which may answer as if others wrote to it in between, and the channels get what they send in any order.
use huracan.Prelude.{
  ℕ, zero, suc, ◌+◌, ◌-◌, ◌%◌, ◌^◌, ◌≤◌, ◌<◌, ◌≡◌, ◌≢◌, refl, sym, ◌∙◌, ap, inl, inr, false, not,
  Option, none, List, [], ◌∷◌, ltb, ◌==◌, if◌then◌else◌, Bool-cases, sub64, arith,
}
use native.Mathlib.Nat.{mod-lt}
use huracan.Mongo.{Checkpoint}
use huracan.Etl.Types.{ObjectItem, KeyStore}
use huracan.Etl.Scan.{Env, Scan, do_scan}
use huracan.Etl.Scan.Counts.{items_of}
use huracan.Etl.Scan.Ledger.{told}
use huracan.Etl.Scan.Flow.{IsFlowing}
use huracan.Etl.Scan.Coverage.{OnGrid}
use huracan.Etl.Scan.Loop.{scan_loop-Silent}
use huracan.Etl.Scan.Arrival.{IsArriving, scan_loop-Announced}
use huracan.Etl.Backfill.{completed_checkpoint_ranges, backfill_worker}
use huracan.Etl.Backfill.Ranges.{is_complete}
use huracan.Etl.Backfill.Partition.{sub64-exact, share, backfill_worker_complete}
use huracan.Etl.Backfill.Delivery.{backfill_worker_exact}
use huracan.Etl.Pipeline.{Takes, done, take, leave}
use huracan.Etl.Pipeline.Saved.{IsExact}

pub record Workers : Type 1 where
  pub env : ℕ → Env
  pub store : ℕ → KeyStore
  pub db : (p : ℕ) → Option (store p).Db

-- The local variables of a scan before its loop.
abbrev pub new_scan : (store : KeyStore) → Option store.Db → Scan store
new_scan store db = record {
  db = db;
  sent = [];
  control = [];
  queries = [];
  num_objects = 0;
  tx_digest_once = none;
  is_closed = false;
}

-- What the first `n` senders put on a channel, in some order.
pub data Interleaved {ℓ} {A : Type ℓ} (out : ℕ → List A) : ℕ → List A → Type ℓ where
  no_sender : Interleaved out 0 []
  sender :
      {n : ℕ} {rest all : List A}
      → Interleaved out n rest
      → Takes (out n) rest all
      → Interleaved out (suc n) all

told-Takes :
    (x : ℕ) {ms ns all : List (ℕ × ℕ)}
    → Takes ms ns all
    → (told x ms ≡ [] → told x all ≡ told x ns) × (told x ns ≡ [] → told x all ≡ told x ms)
told-Takes x done = (λ e. refl, λ e. refl)
told-Takes x (take (cp, n) t) =
    let (p, q) = told-Takes x t in (λ e. ground arith, λ e. ground arith)
told-Takes x (leave (cp, n) t) =
    let (p, q) = told-Takes x t in (λ e. ground arith, λ e. ground arith)

items_of-Takes :
    (x : ℕ) {ms ns all : List (Option ℕ × ObjectItem)}
    → Takes ms ns all
    → items_of x all ≡ items_of x ms + items_of x ns
items_of-Takes x done = refl
items_of-Takes x (take (d, i) t) = omega (arith, items_of-Takes x t)
items_of-Takes x (leave (d, i) t) = omega (arith, items_of-Takes x t)

module _ (x own : ℕ) where
  -- All senders but one are silent about `x`.
  pub interleaved_told :
      (out : ℕ → List (ℕ × ℕ)) (n : ℕ) (all : List (ℕ × ℕ))
      → Interleaved out n all
      → ((p : ℕ) → p < n → (p == own) ≡ false → told x (out p) ≡ [])
      → told x all ≡ (if ltb own n then told x (out own) else [])
  interleaved_told out zero all no_sender h = ground arith
  interleaved_told out (suc n) all (sender {rest = rest} i t) h =
      let ih = interleaved_told out n rest i (λ p l e. h p (omega (arith, l)) e) in
      let (p, q) = told-Takes x t in
      elim (Bool-cases (n == own)) [
        | inl e ↦
            let same : n ≡ own = ground arith in
            let below : told x rest ≡ [] = ih ∙ ground arith in
            q below ∙ ap (λ (k : ℕ). told x (out k)) same ∙ ground arith
        | inr e ↦ p (h n (omega arith) e) ∙ ih ∙ ground arith
      ]

  pub interleaved_items :
      (out : ℕ → List (Option ℕ × ObjectItem)) (n : ℕ) (all : List (Option ℕ × ObjectItem))
      → Interleaved out n all
      → ((p : ℕ) → p < n → (p == own) ≡ false → items_of x (out p) ≡ 0)
      → items_of x all ≡ (if ltb own n then items_of x (out own) else 0)
  interleaved_items out zero all no_sender h = ground arith
  interleaved_items out (suc n) all (sender {rest = rest} i t) h =
      let ih = interleaved_items out n rest i (λ p l e. h p (omega (arith, l)) e) in
      let both = items_of-Takes x t in
      elim (Bool-cases (n == own)) [
        | inl e ↦
            let same : n ≡ own = ground arith in
            let mine : items_of x (out n) ≡ items_of x (out own) =
              ap (λ (k : ℕ). items_of x (out k)) same in
            ground arith
        | inr e ↦ let quiet = h n (omega arith) e in ground arith
      ]

module _ (workers : Workers) (docs : List Checkpoint) (n w : ℕ) where
  abbrev pub crawled : (p : ℕ) → Scan (workers.store p)
  crawled p =
      (backfill_worker (workers.store p) (workers.env p) docs n w p
        (new_scan (workers.store p) (workers.db p))).0

  -- What the workers of all `w` partitions send on the two channels.
  pub record Output (sent : List (Option ℕ × ObjectItem)) (control : List (ℕ × ℕ)) : Type 0 where
    pub items : Interleaved (λ p. (crawled p).sent) w sent
    pub controls : Interleaved (λ p. (crawled p).control) w control

  module _ (positive : 1 ≤ w) (room : w ≤ n + 1) (fits : n < 2 ^ 64) (x : ℕ) where
    off_grid : (p : ℕ) → p < w → ((x ≤ n) → (p == (n - x) % w) ≡ false) → OnGrid w (sub64 n p) x → ⊥
    off_grid p l other (low, (j, e)) =
        let exact : sub64 n p ≡ n - p = sub64-exact n p (omega arith) fits in
        let same : p ≡ (n - x) % w = share x j w p n l (omega arith) (e ∙ exact) in
        let no = other (omega arith) in ground arith

    pub crawled-silent :
        (p : ℕ)
        → p < w
        → ((x ≤ n) → (p == (n - x) % w) ≡ false)
        → (told x (crawled p).control ≡ []) × (items_of x (crawled p).sent ≡ 0)
    unfolding backfill_worker do_scan
    crawled-silent p l other =
        scan_loop-Silent (workers.store p) (workers.env p) w x (suc (sub64 n p)) (sub64 n p)
          (completed_checkpoint_ranges docs) (new_scan (workers.store p) (workers.db p)) positive
          (off_grid p l other)

    -- The channels say about a checkpoint what the worker of its share says.
    pub own_worker :
        (sent : List (Option ℕ × ObjectItem)) (control : List (ℕ × ℕ))
        → Output sent control
        → x ≤ n
        → (told x control ≡ told x (crawled ((n - x) % w)).control)
          × (items_of x sent ≡ items_of x (crawled ((n - x) % w)).sent)
    own_worker sent control out high =
        let own : ℕ = (n - x) % w in
        let l : own < w = mod-lt (n - x) {m = w} positive in
        (
          interleaved_told x own (λ p. (crawled p).control) w control out.controls
                (λ p l e. (crawled-silent p l (λ _. e)).0)
              ∙ ground arith,
          interleaved_items x own (λ p. (crawled p).sent) w sent out.items
                (λ p l e. (crawled-silent p l (λ _. e)).1)
              ∙ ground arith,
        )

  module _ (positive : 1 ≤ w) (room : w ≤ n + 1) (fits : n < 2 ^ 64) where
    -- However the crawls of the workers go, whenever they stop, whatever the key store answers each of
    -- them and in whatever order their messages come: together the workers announce each checkpoint
    -- once at most, and with the number of the items sent for it, if there are not more workers than
    -- the numbers from 0 to `checkpoint_max`.
    pub workers-IsExact :
        (sent : List (Option ℕ × ObjectItem)) (control : List (ℕ × ℕ))
        → Output sent control
        → IsExact sent control
    workers-IsExact sent control out x real = elim (Bool-cases (ltb n x)) [
      | inl high ↦ inl (
          interleaved_told x w (λ p. (crawled p).control) w control out.controls
            (λ p l e. (crawled-silent positive room fits x p l (λ low. absurd (ground arith))).0)
          ∙ ground arith)
      | inr low ↦
          let (c, i) = own_worker positive room fits x sent control out (ground arith) in
          let own : ℕ = (n - x) % w in
          elim (backfill_worker_exact (workers.store own) (workers.env own) docs n w own
            (new_scan (workers.store own) (workers.db own)) x positive refl refl) [
              | inl e ↦ inl (c ∙ e)
              | inr e ↦ inr (c ∙ e ∙ ap (λ (k : ℕ). k ∷ []) (sym i))
            ]
    ]

    -- Where nothing from outside ends a crawl and the answers of the RPC client reach the last page of
    -- each checkpoint.
    pub workers_announce :
        (sent : List (Option ℕ × ObjectItem)) (control : List (ℕ × ℕ)) (x : ℕ)
        → Output sent control
        → ((p : ℕ) → IsFlowing (workers.env p))
        → ((p : ℕ) → IsArriving (workers.env p))
        → 1 ≤ x
        → x ≤ n
        → is_complete x docs ≡ false
        → told x control ≢ []
    unfolding backfill_worker do_scan
    workers_announce sent control x out flowing arriving low high missing none_told =
        let own : ℕ = (n - x) % w in
        let store = workers.store own in
        let env = workers.env own in
        let s = new_scan store (workers.db own) in
        let (c, i) = own_worker positive room fits x sent control out high in
        let (ends, a) =
          backfill_worker_complete store env docs n w positive fits x s (flowing own) low high refl
            refl in
        scan_loop-Announced store env (flowing own) (arriving own) x (suc (sub64 n own)) w
          (sub64 n own) (completed_checkpoint_ranges docs) s refl (λ e. cc) (a ∙ ap not missing)
          (sym c ∙ none_told)
