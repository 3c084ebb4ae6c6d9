-- ===== src/Etl/Livescan/Rounds/Once.antt =====
-- Which checkpoints the livescans of several rounds scan.
use huracan.Prelude.{
  ℕ, ◌+◌, ◌≤◌, ◌≡◌, refl, ◌∙◌, inl, inr, Bool, true, false, Option, none, some, List, [], ◌∷◌, ◌++◌,
  ltb, leb, ◌&&◌, not, ◌⊎◌, ◌==◌, if◌then◌else◌, Bool-cases, arith,
}
use huracan.Etl.Types.{ObjectItem}
use huracan.Etl.Livescan.{
  Plan, backfill, idle, livescan, Settings, plan, behind, Txns, livescan_round,
}
use huracan.Etl.Livescan.Rounds.{
  Observed, Loop, run_backfill, run_livescan, follow_plan, one_round, run_rounds,
}

-- How many of the livescans scan the checkpoint: from above `stop_at_cp` up to `checkpoint_max`.
abbrev pub scans_of : ℕ → List (ℕ × ℕ) → ℕ
scans_of x [] = 0
scans_of x ((checkpoint_max, stop_at_cp) ∷ ls) =
    (if ltb stop_at_cp x && leb x checkpoint_max then 1 else 0) + scans_of x ls

scans_of-append :
    (x : ℕ) (ks ls : List (ℕ × ℕ)) → scans_of x (ks ++ ls) ≡ scans_of x ks + scans_of x ls
scans_of-append x [] ls = omega arith
scans_of-append x ((a, b) ∷ ks) ls = omega (arith, scans_of-append x ks ls)

-- The answer of a round, or the one before.
abbrev pub latest_or : ℕ → Option ℕ → ℕ
latest_or from none = from
latest_or from (some latest_cp) = latest_cp

-- The RPC client never answers with an earlier checkpoint than before.
abbrev pub IsGrowing : ℕ → List Observed → Type 0
IsGrowing from [] = Unit
IsGrowing from (o ∷ os) =
    (from ≤ latest_or from o.latest_cp) × IsGrowing (latest_or from o.latest_cp) os

module _ (settings : Settings) (start_cp x : ℕ) where
  -- What a round does, if it runs no backfill.
  record Scans (from : ℕ) (s t : Loop) : Type 0 where
    counted : s.backfills ≤ t.backfills
    follows : t.backfills ≡ s.backfills → t.last_livescan_cp ≡ from
    scanned_once :
        t.backfills ≡ s.backfills
        → scans_of x t.livescans
          ≡ scans_of x s.livescans
            + (if ltb s.last_livescan_cp x && leb x t.last_livescan_cp then 1 else 0)

  Scans-idle : (s : Loop) → Scans s.last_livescan_cp s s
  Scans-idle s = record {
    counted = omega arith;
    follows = λ e. refl;
    scanned_once = λ e. ground arith;
  }

  run_livescan-Scans :
      (latest_cp : ℕ) (o : Observed) (s t : Loop)
      → run_livescan settings.cpcompletions start_cp latest_cp o s ≡ some t
      → Scans latest_cp s t
  unfolding run_livescan
  run_livescan-Scans latest_cp o s t = by_round (
      livescan_round settings.cpcompletions latest_cp start_cp o.polled_txs o.items o.scan_control
        s.txns_already_processed)
    where
      after : Txns × List (Option ℕ × ObjectItem) × List (ℕ × ℕ) → Loop
      after (m, forwarded, control) = record s {
        last_livescan_cp = latest_cp;
        txns_already_processed = m;
        livescans = s.livescans ++ (latest_cp, s.last_livescan_cp) ∷ [];
        forwarded = s.forwarded ++ forwarded;
        control = s.control ++ control;
      }

      by_round :
          (r : Option (Txns × List (Option ℕ × ObjectItem) × List (ℕ × ℕ)))
          → ◌≡◌ {A = Option Loop} (elim r [ none ↦ none | some p ↦ some (after p) ]) (some t)
          → Scans latest_cp s t
      by_round none e = cc
      by_round (some (m, forwarded, control)) e =
          let same : after (m, forwarded, control) ≡ t = ground arith in
          rw (← same) (record {
            counted = omega arith;
            follows = λ e. refl;
            scanned_once = λ e. scans_of-append x s.livescans _ ∙ ground arith;
          })

  follow_plan-Scans :
      (latest_cp : ℕ) (o : Observed) (p : Plan) (s t : Loop)
      → (p ≡ idle → latest_cp ≡ s.last_livescan_cp)
      → follow_plan settings.cpcompletions start_cp latest_cp o p s ≡ some t
      → Scans latest_cp s t
  unfolding follow_plan run_backfill
  follow_plan-Scans latest_cp o (backfill pause) s t h e = by_backfill o.max_cp e
    where
      by_backfill :
          (r : Option ℕ)
          → ◌≡◌ {A = Option Loop}
              (elim r [ none ↦ none | some max_cp ↦ some (run_backfill pause max_cp s) ])
              (some t)
          → Scans latest_cp s t
      by_backfill none e = cc
      by_backfill (some max_cp) e =
          let same : run_backfill pause max_cp s ≡ t = ground arith in
          rw (← same) (record {
            counted = omega arith;
            follows = λ e. absurd (omega (arith, e));
            scanned_once = λ e. absurd (omega (arith, e));
          })
  follow_plan-Scans latest_cp o idle s t h e =
      let same : s ≡ t = ground arith in rw (← same, h refl) (Scans-idle s)
  follow_plan-Scans latest_cp o livescan s t h e = run_livescan-Scans latest_cp o s t e

  plan-idle :
      (latest_cp : ℕ) (last_completed : Option ℕ) (last : ℕ)
      → plan settings latest_cp last_completed last ≡ idle
      → latest_cp ≡ last
  unfolding plan
  plan-idle latest_cp last_completed last =
      by_tests
        (ltb settings.backfillthreshold (behind latest_cp last_completed)
          && not settings.livescanonly)
        (Bool-cases (latest_cp == last))
    where
      by_tests :
          (far : Bool)
          → ((latest_cp == last) ≡ true) ⊎ ((latest_cp == last) ≡ false)
          → (if far
              then backfill settings.pausepollonbackfill
              else if latest_cp == last
              then idle
              else livescan)
            ≡ idle
          → latest_cp ≡ last
      by_tests true c e = absurd cc
      by_tests false (inl same) e = ground arith
      by_tests false (inr other) e = absurd (let k = rw other at e in cc)

  one_round-Scans :
      (o : Observed) (s t : Loop)
      → one_round settings start_cp o s ≡ some t
      → Scans (latest_or s.last_livescan_cp o.latest_cp) s t
  unfolding one_round
  one_round-Scans o s t = by_answer o.latest_cp o.last_completed_cp
    where
      by_answer :
          (a : Option ℕ) (c : Option (Option ℕ))
          → ◌≡◌ {A = Option Loop}
              (elim a [
                | none ↦ some s
                | some latest_cp ↦ elim c [
                  | none ↦ none
                  | some last_completed_cp ↦
                      follow_plan settings.cpcompletions start_cp latest_cp o
                        (plan settings latest_cp last_completed_cp s.last_livescan_cp)
                        s
                ]
              ])
              (some t)
          → Scans (latest_or s.last_livescan_cp a) s t
      by_answer none c e = let same : s ≡ t = ground arith in rw (← same) (Scans-idle s)
      by_answer (some latest_cp) none e = cc
      by_answer (some latest_cp) (some last) e =
          follow_plan-Scans latest_cp o _ s t (plan-idle latest_cp last s.last_livescan_cp) e

  run_rounds-cases :
      (o : Observed) (os : List Observed) (s t : Loop)
      → run_rounds settings start_cp (o ∷ os) s ≡ some t
      → (s ≡ t)
        ⊎ ((u : Loop) × (one_round settings start_cp o s ≡ some u)
            × (run_rounds settings start_cp os u ≡ some t))
  unfolding run_rounds
  run_rounds-cases o os s t = by_round o.stop (one_round settings start_cp o s) refl
    where
      by_round :
          (stop : Bool) (r : Option Loop)
          → one_round settings start_cp o s ≡ r
          → ◌≡◌ {A = Option Loop}
              (if stop
                then some s
                else elim r [ none ↦ none | some u ↦ run_rounds settings start_cp os u ])
              (some t)
          → (s ≡ t)
            ⊎ ((u : Loop) × (one_round settings start_cp o s ≡ some u)
                × (run_rounds settings start_cp os u ≡ some t))
      by_round true r k e = inl (ground arith)
      by_round false none k e = cc
      by_round false (some u) k e = inr (u, k, e)

  run_rounds-counted :
      (os : List Observed) (s t : Loop)
      → run_rounds settings start_cp os s ≡ some t
      → s.backfills ≤ t.backfills
  unfolding run_rounds
  run_rounds-counted [] s t e = let same : s ≡ t = ground arith in rw (← same) (omega arith)
  run_rounds-counted (o ∷ os) s t e = elim (run_rounds-cases o os s t e) [
    | inl same ↦ rw (← same) (omega arith)
    | inr (u, first, rest) ↦
        omega (arith, (one_round-Scans o s u first).counted, run_rounds-counted os u t rest)
  ]

  -- The rounds between two backfills: each checkpoint from above the one where the livescans begin up
  -- to the one where they end is scanned by exactly one of them, and no other is scanned at all, if
  -- the RPC client never answers with an earlier checkpoint than before.
  pub run_rounds_once :
      (os : List Observed) (s t : Loop)
      → IsGrowing s.last_livescan_cp os
      → run_rounds settings start_cp os s ≡ some t
      → t.backfills ≡ s.backfills
      → (s.last_livescan_cp ≤ t.last_livescan_cp)
        × (scans_of x t.livescans
            ≡ scans_of x s.livescans
              + (if ltb s.last_livescan_cp x && leb x t.last_livescan_cp then 1 else 0))
  unfolding run_rounds
  run_rounds_once [] s t grows e none_run =
      let same : s ≡ t = ground arith in rw (← same) (omega arith, ground arith)
  run_rounds_once (o ∷ os) s t (up, grows) e none_run = elim (run_rounds-cases o os s t e) [
    | inl same ↦ rw (← same) (omega arith, ground arith)
    | inr (u, first, rest) ↦
        let one = one_round-Scans o s u first in
        let more = run_rounds-counted os u t rest in
        let quiet : u.backfills ≡ s.backfills = omega (arith, one.counted, more, none_run) in
        let at = one.follows quiet in
        let (higher, scans) =
          run_rounds_once os u t (rw at grows) rest (omega (arith, quiet, none_run)) in
        (
          omega (arith, at, up, higher),
          ground (arith, at, up, higher, scans, one.scanned_once quiet),
        )
  ]
