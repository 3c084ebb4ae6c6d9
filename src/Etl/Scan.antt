-- ===== src/Etl/Scan.antt =====
-- main/src/etl.rs: `do_scan`, the crawl of one worker over its share of the checkpoints. The local
-- variables of the loops and what was sent on the channels are one record. The other tasks enter by
-- an `Env`: the successive answers of the RPC client to the calls for a checkpoint, whether the
-- receivers still take the k-th message, and the stop flag as it is read at a checkpoint.
pub mod Rules
pub mod Queries
pub mod Counts
pub mod Ledger
pub mod Known
pub mod Flow
pub mod Coverage
pub mod Complete
pub mod Decision
pub mod Loop
pub mod Falling
pub mod Arrival
use huracan.Prelude.{
  ℕ, zero, suc, ◌+◌, ◌-◌, ◌*◌, ◌/◌, Bool, true, false, Option, none, some, List, [], ◌∷◌, ◌++◌, ltb,
  leb, ◌==◌, if◌then◌else◌, length, sub64,
}
use huracan.Client.Changes.{ObjectChange, parse_change}
use huracan.Etl.Types.{IngestRoute, ObjectItem, Block, Page, Response, page, failed, KeyStore}

pub record Env : Type 0 where
  pub ingest_route : IngestRoute
  pub checkpointretries : ℕ
  pub responses : ℕ → List Response
  pub items_open : ℕ → Bool
  pub control_open : ℕ → Bool
  pub stop : ℕ → Bool

-- How the pages of a checkpoint end: `finished` with its control message, `gave_up` without one
-- when the retries are used up. The rest end the task: the item channel is `closed`, `unwrap` on
-- the control channel `panicked`, or the RPC client is still `waiting` for an answer.
pub data Fetched : Type 0 where
  finished gave_up closed panicked waiting : Fetched

-- Whether the crawl goes on with the next checkpoint.
abbrev pub go_on : Fetched → Bool
go_on finished = true
go_on gave_up = true
go_on _ = false

-- What the inner loop over the completed ranges finds for a checkpoint.
pub data Verdict : Type 0 where
  all_done : Verdict
  skip : ℕ → List (ℕ × ℕ) → Verdict
  fetch : List (ℕ × ℕ) → Verdict

-- How `do_scan` ends; `unanswered` has not ended yet, and waits for an answer of the RPC client.
pub data Ended : Type 0 where
  exhausted stopped aborted unanswered out_of_fuel : Ended

abbrev pub ended_by : Fetched → Ended
ended_by waiting = unanswered
ended_by _ = aborted

-- The head of the list is `completed_range`, its tail what `completed_iter` still holds.
unfoldable pub check_completed : ℕ → ℕ → List (ℕ × ℕ) → Verdict
check_completed cp step_size [] = fetch []
check_completed cp step_size ((end, start) ∷ rs) =
    if ltb cp start
    then check_completed cp step_size rs
    else if leb cp end
    then if leb start 1 then all_done else skip ((cp - start) / step_size) rs
    else fetch ((end, start) ∷ rs)

module _ (store : KeyStore) where
  open store use {Db, is_known, put}

  pub record Scan : Type 0 where
    pub db : Option Db
    pub sent : List (Option ℕ × ObjectItem)
    pub control : List (ℕ × ℕ)
    pub queries : List (ℕ × Option ℕ)
    pub num_objects : ℕ
    pub tx_digest_once : Option ℕ
    pub is_closed : Bool

  module _ (env : Env) where
    -- `db.get_pinned`, and `db.put` for a new key: nothing for an object that is to be skipped.
    pub mark : Option Db → ℕ → Option (Option Db)
    mark none id = some none
    mark (some db) id = if is_known db id then none else some (some (put db id))

    -- `object_ids_tx.send`; the digest is taken also by a send that fails.
    pub send_item : ObjectItem → Scan → Scan
    send_item item s =
        if env.items_open (length s.sent)
        then record s { sent = s.sent ++ (s.tx_digest_once, item) ∷ []; tx_digest_once = none }
        else record s { tx_digest_once = none; is_closed = true }

    -- The body of `for change in changes`, once the change is parsed.
    pub emit_object : ℕ → Option ℕ → ℕ → ℕ × ℕ × Bool → Scan → Scan
    unfolding mark send_item
    emit_object cp ts_sui ts_first_seen (id, version, deleted) s = elim (mark s.db id) [
      | none ↦ s
      | some db ↦
          send_item
            (record {
              cp = cp;
              deletion = deleted;
              id = id;
              version = version;
              ts_sui = ts_sui;
              ts_first_seen = ts_first_seen;
              ingested_via = env.ingest_route;
              bytes = [];
            })
            (record s { db = db; num_objects = s.num_objects + 1 })
    ]

    pub emit_change : ℕ → Option ℕ → ℕ → ObjectChange → Scan → Scan
    unfolding emit_object parse_change
    emit_change cp ts_sui ts_first_seen change s = elim (parse_change change) [
      | none ↦ s
      | some parsed ↦ emit_object cp ts_sui ts_first_seen parsed s
    ]

    -- The loops over changes and blocks are left at once when the channel is closed.
    pub emit_changes : ℕ → Option ℕ → ℕ → List ObjectChange → Scan → Scan
    unfolding emit_change
    emit_changes cp ts_sui ts [] s = s
    emit_changes cp ts_sui ts (c ∷ cs) s =
        emit_changes cp ts_sui ts cs (if s.is_closed then s else emit_change cp ts_sui ts c s)

    unfoldable pub emit_block : ℕ → ℕ → Block → Scan → Scan
    unfolding emit_changes
    emit_block cp ts b s = elim b.object_changes [
      | none ↦ s
      | some changes ↦
          emit_changes cp b.timestamp_ms ts changes (record s { tx_digest_once = some b.digest })
    ]

    pub emit_blocks : ℕ → ℕ → List Block → Scan → Scan
    unfolding emit_block
    emit_blocks cp ts [] s = s
    emit_blocks cp ts (b ∷ bs) s =
        emit_blocks cp ts bs (if s.is_closed then s else emit_block cp ts b s)

    -- `cp_control_tx.send(...).await.unwrap()`, then `break`.
    pub send_control : ℕ → Scan → Scan × Fetched
    send_control cp s =
        if env.control_open (length s.control)
        then (record s { control = s.control ++ (cp, s.num_objects) ∷ [] }, finished)
        else (s, panicked)

    abbrev pub ask : ℕ → Option ℕ → Scan → Scan
    ask cp cursor s = record s { queries = s.queries ++ (cp, cursor) ∷ [] }

    -- What follows a page whose blocks have been sent on: stop, end the checkpoint, or go on at the
    -- next cursor.
    pub after_page : ℕ → Page → Scan → (ℕ → Scan × Fetched) → Scan × Fetched
    after_page cp p t rest =
        if t.is_closed
        then (t, closed)
        else if p.has_next_page
        then elim p.next_cursor [ none ↦ send_control cp t | some c ↦ rest c ]
        else send_control cp t

    -- The loop over the pages of a checkpoint. The answers are those that have come up to a moment, in
    -- their order; a task whose pages never end is `waiting` at each such moment.
    pub fetch_pages : ℕ → List Response → ℕ → Option ℕ → Scan → Scan × Fetched
    unfolding emit_blocks send_control after_page
    fetch_pages cp [] retries_left cursor s = (ask cp cursor s, waiting)
    fetch_pages cp (failed ∷ rs) retries_left cursor s =
        let rest = fetch_pages cp rs (retries_left - 1) cursor (ask cp cursor s) in
        if retries_left == 0 then (ask cp cursor s, gave_up) else rest
    fetch_pages cp (page ts p ∷ rs) retries_left cursor s =
        let t = emit_blocks cp ts p.blocks (ask cp cursor s) in
        after_page cp p t (λ c. fetch_pages cp rs env.checkpointretries (some c) t)

    -- From `let q = ...` on: the work on one checkpoint.
    pub scan_checkpoint : ℕ → Scan → Scan × Fetched
    unfolding fetch_pages
    scan_checkpoint cp s =
        fetch_pages cp (env.responses cp) env.checkpointretries none (record s { num_objects = 0 })

    -- What the loop `'cp` does about a checkpoint, by the verdict on it. `advance_by k` passes over
    -- k more numbers of the iterator; `go` is the rest of the loop.
    pub act : ℕ → ℕ → Scan → (ℕ → List (ℕ × ℕ) → Scan → Scan × Ended) → Verdict → Scan × Ended
    unfolding scan_checkpoint
    act step_size cp s go all_done = (s, exhausted)
    act step_size cp s go (skip k rs) = go (cp - step_size - k * step_size) rs s
    act step_size cp s go (fetch rs) =
        let t = scan_checkpoint cp s in
        if go_on t.1 then go (cp - step_size) rs t.0 else (t.0, ended_by t.1)

    -- The loop `'cp`. The iterator `(1..=first).rev().step_by(step_size)` is the number that it
    -- yields next, 0 once it is exhausted.
    pub scan_loop : ℕ → ℕ → ℕ → List (ℕ × ℕ) → Scan → Scan × Ended
    unfolding check_completed act
    scan_loop zero step_size cp ranges s = (s, out_of_fuel)
    scan_loop (suc fuel) step_size cp ranges s =
        let go = scan_loop fuel step_size in
        if cp == 0
        then (s, exhausted)
        else if env.stop cp
        then (s, stopped)
        else act step_size cp s go (check_completed cp step_size ranges)

    unfoldable pub do_scan : ℕ → List (ℕ × ℕ) → ℕ → ℕ → Scan → Scan × Ended
    unfolding scan_loop
    do_scan checkpoint_max ranges step_size partition s =
        let first : ℕ = sub64 checkpoint_max partition in
        scan_loop (suc first) step_size first ranges s
