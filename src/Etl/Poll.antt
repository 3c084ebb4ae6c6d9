-- ===== src/Etl/Poll.antt =====
-- main/src/etl.rs: `do_poll`, which follows the newest transactions. An execution is given by the
-- rounds of its loop: the answer to the query and the time that is noted for its items. The stop flag,
-- the pauses and the waits between the rounds are left out: they only say which rounds there are.
pub mod Forward
use huracan.Prelude.{
  ℕ, ◌+◌, Bool, true, false, Option, none, some, List, [], ◌∷◌, ◌++◌, reverse, elem, length,
  if◌then◌else◌,
}
use huracan.Client.Changes.{ObjectChange, parse_change}
use huracan.Etl.Types.{ObjectItem, poll, Block, Page}

-- `Err` of the query, or a page; the time is `latency_first_seen_ms`.
pub data Round : Type 0 where
  failed : Round
  page : (latency_first_seen_ms : ℕ) → Page → Round

-- The local variables, what was sent on the two channels, and the queries: cursor and order.
pub record Poll : Type 0 where
  pub cursor : Option ℕ
  pub retry_count : ℕ
  pub desc : Bool
  pub checkpoints : List ℕ
  pub observed : List ℕ
  pub sent : List (Option ℕ × ObjectItem)
  pub queries : List (Option ℕ × Bool)
  pub tx_digest_once : Option ℕ
  pub is_closed : Bool

unfoldable pub start : Poll
start = record {
  cursor = none;
  retry_count = 0;
  desc = true;
  checkpoints = [];
  observed = [];
  sent = [];
  queries = [];
  tx_digest_once = none;
  is_closed = false;
}

-- Whether the receiver still takes the k-th item.
module _ (items_open : ℕ → Bool) where
  pub emit_object : Block → ℕ → ℕ × ℕ × Bool → Poll → Poll
  emit_object b ts (id, version, deletion) p =
      let item : ObjectItem = record {
        cp = 0;
        deletion = deletion;
        id = id;
        version = version;
        ts_sui = b.timestamp_ms;
        ts_first_seen = ts;
        ingested_via = poll;
        bytes = [];
      } in
      if items_open (length p.sent)
      then record p { sent = p.sent ++ (p.tx_digest_once, item) ∷ []; tx_digest_once = none }
      else record p { tx_digest_once = none; is_closed = true }

  pub emit_change : Block → ℕ → ObjectChange → Poll → Poll
  unfolding emit_object parse_change
  emit_change b ts c p = elim (parse_change c) [
    | none ↦ p
    | some parsed ↦ emit_object b ts parsed p
  ]

  -- The loop over the parsed changes, which a closed channel ends.
  pub emit_changes : Block → ℕ → List ObjectChange → Poll → Poll
  unfolding emit_change
  emit_changes b ts [] p = p
  emit_changes b ts (c ∷ cs) p =
      emit_changes b ts cs (if p.is_closed then p else emit_change b ts c p)

  pub forward : Block → ℕ → Poll → Poll
  unfolding emit_changes
  forward b ts p = elim b.object_changes [
    | none ↦ record p { tx_digest_once = some b.digest }
    | some changes ↦ emit_changes b ts changes (record p { tx_digest_once = some b.digest })
  ]

  -- `observed_checkpoints_tx.send(cp).ok()`: a failure is ignored, so what counts is what it sends.
  abbrev pub observe : ℕ → Poll → Poll
  observe cp p = record p { checkpoints = cp ∷ p.checkpoints; observed = p.observed ++ cp ∷ [] }

  -- The body of `for block in page.data`.
  unfoldable pub take_block : ℕ → Block → Poll → Poll
  unfolding forward
  take_block ts b p = elim b.checkpoint [
    | none ↦ forward b ts p
    | some cp ↦ if elem cp p.checkpoints then forward b ts p else observe cp p
  ]

  pub take_blocks : ℕ → List Block → Poll → Poll
  unfolding take_block
  take_blocks ts [] p = p
  take_blocks ts (b ∷ bs) p = take_blocks ts bs (if p.is_closed then p else take_block ts b p)

  -- `page.data.last().unwrap().digest`
  abbrev pub last_digest : ℕ → List Block → ℕ
  last_digest digest [] = digest
  last_digest digest (b ∷ bs) = last_digest b.digest bs

  -- A page that is not empty, in ascending order.
  pub take_page : ℕ → List Block → Poll → Poll
  unfolding take_blocks
  take_page ts [] p = p
  take_page ts (b ∷ bs) p =
      take_blocks ts (b ∷ bs)
        (record p { desc = false; cursor = some (last_digest b.digest bs); checkpoints = [] })

  unfoldable pub round : Round → Poll → Poll
  unfolding take_page
  round failed p = record p {
    queries = p.queries ++ (p.cursor, p.desc) ∷ [];
    retry_count = p.retry_count + 1;
  }
  round (page ts pg) p =
      take_page ts (if p.desc then reverse pg.blocks else pg.blocks)
        (record p { queries = p.queries ++ (p.cursor, p.desc) ∷ []; retry_count = 0 })

  unfoldable pub run : List Round → Poll → Poll
  unfolding round
  run [] p = p
  run (r ∷ rs) p = run rs (if p.is_closed then p else round r p)
