-- ===== src/Etl/Walk/Crawl.antt =====
-- main/src/etl.rs: `do_walk`. The answers of the RPC client to the k-th query by checkpoint, and to
-- the queries that go on from it, are `responses k` of the environment; the stop flag is not read. The
-- receiver of the control channel is there.
pub mod Endless
use huracan.Prelude.{
  ℕ, zero, suc, ◌+◌, ◌-◌, ◌^◌, Bool, true, false, Option, none, some, List, [], ◌∷◌, ◌++◌, ltb,
  ◌==◌, if◌then◌else◌, sub64,
}
use huracan.Etl.Types.{Block, Page, Response, page, failed, KeyStore}
use huracan.Etl.Scan.{Env, Scan, emit_block}
use huracan.Etl.Walk.{MoveAction, continue, next_checkpoint, end_, Walk, traverse_checkpoints}

-- How a part of the walk ends: it goes `on`, the outer loop is to go on at once (`continue 'cp`), the
-- walk is over (`break 'cp`), a block without checkpoint made it panic, or it waits for an answer.
pub data Turn : Type 0 where
  on again over panicked waiting out_of_fuel : Turn

module _ (store : KeyStore) where
  -- What is sent is in `crawl`, as are the objects counted. A query has a checkpoint and a cursor.
  pub record Walker : Type 0 where
    pub crawl : Scan store
    pub cp : ℕ
    pub last_cp : ℕ
    pub ranges : List (ℕ × ℕ)
    pub cursor : Option ℕ
    pub queries : List (Option ℕ × Option ℕ)

  abbrev pub turn_of : MoveAction → Turn
  turn_of continue = on
  turn_of next_checkpoint = again
  turn_of end_ = over

  -- The macro `traverse_checkpoints!`.
  pub traverse : ℕ → Walker → Walker × Turn
  unfolding traverse_checkpoints
  traverse next_cp w =
      let (action, v) = traverse_checkpoints next_cp (record {
        cp = w.cp;
        ranges = w.ranges;
        num_objects = w.crawl.num_objects;
        control = w.crawl.control;
      }) in
      let crawl : Scan store =
        (let s = w.crawl in record s { num_objects = v.num_objects; control = v.control }) in
      (record w { crawl = crawl; cp = v.cp; ranges = v.ranges }, turn_of action)

  module _ (env : Env) where
    -- From `cursor = Some(block.digest)` to the end of the block.
    pub cross_block : ℕ → ℕ → Block → Walker → Walker × Turn
    unfolding emit_block
    cross_block ts block_cp b w =
        let crawl : Scan store = emit_block store env w.cp ts b w.crawl in
        if ltb w.cp block_cp then (record w { cursor = some b.digest }, on) else (
          record w { cursor = some b.digest; crawl = crawl },
          (if crawl.is_closed then over else on),
        )

    -- What follows a part that may have ended the loop.
    abbrev pub unless_left : Walker × Turn → (Walker → Walker × Turn) → Walker × Turn
    unless_left (w, on) f = f w
    unless_left r f = r

    pub walk_block : ℕ → Block → Walker → Walker × Turn
    unfolding traverse cross_block
    walk_block ts b w = elim b.checkpoint [
      | none ↦ (w, panicked)
      | some block_cp ↦
          if block_cp == w.cp
          then cross_block ts block_cp b w
          else unless_left (traverse block_cp w) (cross_block ts block_cp b)
    ]

    pub walk_blocks : ℕ → List Block → Walker → Walker × Turn
    unfolding walk_block
    walk_blocks ts [] w = (w, on)
    walk_blocks ts (b ∷ bs) w = unless_left (walk_block ts b w) (walk_blocks ts bs)

    abbrev pub make_query : Option ℕ → Walker → Walker
    make_query query_cp w = record w { queries = w.queries ++ (query_cp, w.cursor) ∷ [] }

    abbrev pub at_cursor : ℕ → Walker → Walker
    at_cursor c w = record w { cursor = some c }

    -- What follows the blocks of a page.
    abbrev pub turn_page : Page → (Walker → Walker × Turn) → Walker → Walker × Turn
    turn_page p rest w =
        if p.has_next_page
        then elim p.next_cursor [ none ↦ (w, on) | some c ↦ rest (at_cursor c w) ]
        else (w, on)

    -- The inner loop. `query_cp.take()` leaves no checkpoint for the queries after the first one.
    pub walk_pages : List Response → Option ℕ → ℕ → Walker → Walker × Turn
    unfolding walk_blocks
    walk_pages [] query_cp retries_left w = (make_query query_cp w, waiting)
    walk_pages (failed ∷ rs) query_cp retries_left w =
        let rest = walk_pages rs none (retries_left - 1) (make_query query_cp w) in
        if retries_left == 0 then (make_query query_cp w, on) else rest
    walk_pages (page ts p ∷ rs) query_cp retries_left w =
        unless_left (walk_blocks ts p.blocks (make_query query_cp w))
          (turn_page p (walk_pages rs none env.checkpointretries))

    -- `ensure we don't get into an infinite loop with the current checkpoint`.
    pub leave_last : Walker → Walker × Turn
    unfolding traverse
    leave_last w =
        if w.cp == w.last_cp
        then unless_left (traverse (sub64 w.cp 1) w) (λ v. (record v { last_cp = v.cp }, on))
        else (w, on)

    abbrev pub no_objects : Walker → Walker
    no_objects w =
        let crawl : Scan store = (let s = w.crawl in record s { num_objects = 0 }) in
        record w { crawl = crawl }

    abbrev pub no_cursor : Walker → Walker
    no_cursor w = record w { cursor = none }

    -- The body of the outer loop, for the round with the given number.
    pub walk_round : ℕ → Walker → Walker × Turn
    unfolding leave_last walk_pages
    walk_round round w =
        unless_left (leave_last (no_objects w))
          (λ v. walk_pages (env.responses round) (some v.cp) env.checkpointretries (no_cursor v))

    -- What the outer loop does after a round.
    abbrev pub next_round : (Walker → Walker × Turn) → Walker × Turn → Walker × Turn
    next_round go (w, on) = go w
    next_round go (w, again) = go w
    next_round go r = r

    pub walk_loop : ℕ → ℕ → Walker → Walker × Turn
    unfolding walk_round
    walk_loop zero round w = (w, out_of_fuel)
    walk_loop (suc fuel) round w = next_round (walk_loop fuel (round + 1)) (walk_round round w)

    unfoldable pub do_walk : ℕ → ℕ → List (ℕ × ℕ) → Scan store → Walker × Turn
    unfolding walk_loop
    do_walk fuel checkpoint_start completed_checkpoint_ranges s = walk_loop fuel 0 (record {
      crawl = s;
      cp = checkpoint_start;
      last_cp = 2 ^ 64 - 1;
      ranges = completed_checkpoint_ranges;
      cursor = none;
      queries = [];
    })
