-- ===== src/Etl/Tail.antt =====
-- main/src/etl.rs: the last task of `spawn_pipeline_tail`. It counts, for each checkpoint, the items
-- announced on the control channel against those that were loaded, saves a checkpoint once the two
-- agree, and passes failed items on for a retry. `select!` takes the messages of the two channels in
-- any order: an execution is a list of messages. The i64 counters are integers that do not wrap.
pub mod Balance
pub mod Saved
use huracan.Prelude.{
  ℕ, ◌+◌, ◌-◌, Bool, true, false, Option, none, some, List, [], ◌∷◌, ◌++◌, ltb, ◌==◌, if◌then◌else◌,
  max,
}
use huracan.Prelude.Int.{ℤ, pos, negsuc, ◌+ℤ◌, ◌-ℤ◌, is_zero}
use huracan.Etl.Types.{ObjectItem, StepStatus, ok, err}

pub data Message : Type 0 where
  -- from `last_rx`: the item, and the time at which it was loaded if latency is tracked
  loaded : StepStatus → ObjectItem → Option ℕ → Message
  -- from `cp_control_rx`
  announced : (cp num_items : ℕ) → Message

-- The local variables of the task, with what it has sent to Pulsar, saved by `mongo_checkpoint` and
-- written as latency metric. A key that the map lacks is `none`.
pub record Tail : Type 0 where
  pub completions_left : ℕ → Option ℤ
  pub max_cp_completed : ℕ
  pub last_latency : ℕ
  pub retries : List ObjectItem
  pub saved : List ℕ
  pub latencies : List ℕ

unfoldable pub start : Tail
start = record {
  completions_left = λ cp. none;
  max_cp_completed = 0;
  last_latency = 0;
  retries = [];
  saved = [];
  latencies = [];
}

abbrev pub update : (ℕ → Option ℤ) → ℕ → Option ℤ → ℕ → Option ℤ
update m cp v j = if j == cp then v else m j

-- `entry(cp).and_modify(|n| *n += d).or_insert(d)`: the new value.
abbrev pub bump : Option ℤ → ℤ → ℤ
bump none d = d
bump (some v) d = v +ℤ d

-- From `entry` to the end of the round.
pub settle : ℕ → ℤ → Tail → Tail
settle cp d t =
    let v = bump (t.completions_left cp) d in
    if is_zero v
    then record t {
      completions_left = update t.completions_left cp none;
      saved = t.saved ++ cp ∷ [];
      max_cp_completed = max t.max_cp_completed cp;
    }
    else record t { completions_left = update t.completions_left cp (some v) }

-- `checked_sub(..).unwrap_or(0)` is the subtraction of ℕ. The same latency is not logged twice in a
-- row, and the conversion of a larger one to i32 panics: `none`.
pub track_latency : Option ℕ → Option ℕ → ℕ → Tail → Option Tail
track_latency (some ts_sui) (some completed) ts_first_seen t =
    let latency : ℕ = completed - ts_first_seen in
    if latency == t.last_latency
    then some t
    else if ltb latency 2147483648
    then some (record t { last_latency = latency; latencies = t.latencies ++ latency ∷ [] })
    else none
track_latency _ _ ts_first_seen t = some t

abbrev pub resend : StepStatus → ObjectItem → Tail → Tail
resend ok item t = t
resend err item t = record t { retries = t.retries ++ item ∷ [] }

-- One round of the loop; `none` is a panic.
unfoldable pub step : Message → Tail → Option Tail
unfolding settle track_latency ◌+ℤ◌
step (loaded status item completed_at) t =
    elim (track_latency item.ts_sui completed_at item.ts_first_seen t) [
      | none ↦ none
      | some u ↦
          if item.cp == 0 then some u else some (settle item.cp (negsuc 0) (resend status item u))
    ]
step (announced cp num_items) t = some (settle cp (pos num_items) t)

unfoldable pub run : List Message → Tail → Option Tail
unfolding step
run [] t = some t
run (m ∷ ms) t = elim (step m t) [ none ↦ none | some u ↦ run ms u ]
