-- ===== src/Etl/Livescan/Rounds.antt =====
-- main/src/etl.rs: the rounds of the loop of `run`, one after the other, and the task before it that
-- passes on what the polling finds. What a round sees of the other tasks, of MongoDB and of the chain
-- is a record; that a round waits for the poll interval is left out.
pub mod Once
pub mod Total
use huracan.Prelude.{
  ℕ, ◌+◌, Bool, true, false, Option, none, some, List, [], ◌∷◌, ◌++◌, if◌then◌else◌, length,
}
use huracan.Etl.Types.{ObjectItem}
use huracan.Etl.Livescan.{
  Plan, backfill, idle, livescan, Settings, plan, after_backfill, Txns, livescan_round,
}

-- The stop flag; the latest checkpoint, `none` on an error; the highest `_id` of the collection of
-- checkpoints, if there is one, and `none` if MongoDB fails; what the backfill of this round returns,
-- if one is run, and `none` if it cannot be started or its task panics; and for a livescan the digests
-- from the polling, and the items and messages of the scan.
pub record Observed : Type 0 where
  pub stop : Bool
  pub latest_cp : Option ℕ
  pub last_completed_cp : Option (Option ℕ)
  pub max_cp : Option ℕ
  pub polled_txs : List ℕ
  pub items : List (Option ℕ × ObjectItem)
  pub scan_control : List (ℕ × ℕ)

-- The variables that outlive a round, with what was started and sent: the arguments
-- `(checkpoint_max, stop_at_cp)` of the livescans, how many backfills were run, and how often polling
-- was paused for one.
pub record Loop : Type 0 where
  pub last_livescan_cp : ℕ
  pub txns_already_processed : Txns
  pub livescans : List (ℕ × ℕ)
  pub backfills : ℕ
  pub pauses : ℕ
  pub forwarded : List (Option ℕ × ObjectItem)
  pub control : List (ℕ × ℕ)

-- Before the first round: the highest `_id` that `find_one` has found, or 0.
abbrev pub enter : Option ℕ → Loop
enter last_completed_cp = record {
  last_livescan_cp = elim last_completed_cp [ none ↦ 0 | some cp ↦ cp ];
  txns_already_processed = λ tx. none;
  livescans = [];
  backfills = 0;
  pauses = 0;
  forwarded = [];
  control = [];
}

-- The backfill of a round, up to `continue`. A pause is lifted when the first crawl has ended.
pub run_backfill : Bool → ℕ → Loop → Loop
run_backfill pause max_cp s = record s {
  last_livescan_cp = after_backfill max_cp s.last_livescan_cp;
  backfills = s.backfills + 1;
  pauses = (if pause then s.pauses + 1 else s.pauses);
}

-- The livescan of a round; `none` if it panics or never ends.
pub run_livescan : (cpcompletions start_cp latest_cp : ℕ) → Observed → Loop → Option Loop
unfolding livescan_round
run_livescan cpcompletions start_cp latest_cp o s =
    elim (livescan_round cpcompletions latest_cp start_cp o.polled_txs o.items o.scan_control
      s.txns_already_processed) [
        | none ↦ none
        | some (m, forwarded, control) ↦ some (record s {
          last_livescan_cp = latest_cp;
          txns_already_processed = m;
          livescans = s.livescans ++ (latest_cp, s.last_livescan_cp) ∷ [];
          forwarded = s.forwarded ++ forwarded;
          control = s.control ++ control;
        })
      ]

-- By the plan of the round; `none` also on the `unwrap` of a backfill that cannot be started or of its
-- handle.
pub follow_plan : (cpcompletions start_cp latest_cp : ℕ) → Observed → Plan → Loop → Option Loop
unfolding run_backfill run_livescan
follow_plan cpcompletions start_cp latest_cp o (backfill pause) s = elim o.max_cp [
  | none ↦ none
  | some max_cp ↦ some (run_backfill pause max_cp s)
]
follow_plan cpcompletions start_cp latest_cp o idle s = some s
follow_plan cpcompletions start_cp latest_cp o livescan s =
    run_livescan cpcompletions start_cp latest_cp o s

-- A round that is not stopped; `none` also on the `unwrap` of what MongoDB answers.
pub one_round : Settings → (start_cp : ℕ) → Observed → Loop → Option Loop
unfolding plan follow_plan
one_round settings start_cp o s = elim o.latest_cp [
  | none ↦ some s
  | some latest_cp ↦ elim o.last_completed_cp [
    | none ↦ none
    | some last_completed_cp ↦
        follow_plan settings.cpcompletions start_cp latest_cp o
          (plan settings latest_cp last_completed_cp s.last_livescan_cp) s
  ]
]

-- The loop, for the rounds that come until the stop flag is set.
unfoldable pub run_rounds : Settings → (start_cp : ℕ) → List Observed → Loop → Option Loop
unfolding one_round
run_rounds settings start_cp [] s = some s
run_rounds settings start_cp (o ∷ os) s =
    let rest : Option Loop = elim (one_round settings start_cp o s) [
      | none ↦ none
      | some t ↦ run_rounds settings start_cp os t
    ] in
    if o.stop then some s else rest

-- From the first `find_one` on, whose failure is a panic.
unfoldable pub run_loop :
    Settings → (start_cp : ℕ) → (found : Option (Option ℕ)) → List Observed → Option Loop
unfolding run_rounds
run_loop settings start_cp none os = none
run_loop settings start_cp (some last_completed_cp) os =
    run_rounds settings start_cp os (enter last_completed_cp)

-- The task that passes on what the polling finds: the digests to the loop, the items to the pipeline.
pub record Forwarder : Type 0 where
  pub digests : List ℕ
  pub items : List (Option ℕ × ObjectItem)

-- `poll_livescan_items_transactions_tx.send`; `none` when the receiver is gone.
abbrev pub send_digest : (ℕ → Bool) → Option ℕ → Forwarder → Option Forwarder
send_digest txs_open none f = some f
send_digest txs_open (some tx) f =
    if txs_open (length f.digests) then some (record f { digests = f.digests ++ tx ∷ [] }) else none

-- The loop of the task; it ends when one of the receivers is gone.
unfoldable pub pass_polled :
    (txs_open items_open : ℕ → Bool) → List (Option ℕ × ObjectItem) → Forwarder → Forwarder
pass_polled txs_open items_open [] f = f
pass_polled txs_open items_open ((tx, item) ∷ is) f = elim (send_digest txs_open tx f) [
  | none ↦ f
  | some g ↦
      let rest =
        pass_polled txs_open items_open is (record g { items = g.items ++ (tx, item) ∷ [] }) in
      if items_open (length g.items) then rest else g
]
