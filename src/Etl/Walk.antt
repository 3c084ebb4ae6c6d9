-- ===== src/Etl/Walk.antt =====
-- main/src/etl.rs: `traverse_checkpoints`, by which `do_walk` moves from one checkpoint to another.
-- `do_walk` itself is not called by the program.
pub mod Moves
pub mod Crawl
use huracan.Prelude.{
  ℕ, zero, suc, ◌+◌, ◌-◌, Bool, true, false, List, [], ◌∷◌, ◌++◌, ltb, leb, if◌then◌else◌,
}

pub data MoveAction : Type 0 where
  continue next_checkpoint end_ : MoveAction

-- The variables that the function changes, with what it has sent. The head of `ranges` is
-- `completed_range`, the tail what `completed_iter` still holds.
pub record Walk : Type 0 where
  pub cp : ℕ
  pub ranges : List (ℕ × ℕ)
  pub num_objects : ℕ
  pub control : List (ℕ × ℕ)

-- The loop `for cp in *cp..next_cp`, for a number of checkpoints from the given one on.
pub announce : ℕ → ℕ → Walk → Walk
announce zero from w = w
announce (suc count) from w =
    announce count (from + 1)
      (record w { control = w.control ++ (from, w.num_objects) ∷ []; num_objects = 0 })

-- `(SUI_QUERY_MAX_RESULT_LIMIT as f32 / CHECKPOINT_DENSITY) as u64 * 2`: 1000 / 0.3, cut to 3333, twice.
abbrev pub jump_distance : ℕ
jump_distance = 6666

-- The second loop: the action, the checkpoint and the ranges left.
unfoldable pub find_next : ℕ → ℕ → List (ℕ × ℕ) → MoveAction × ℕ × List (ℕ × ℕ)
find_next next_cp cp [] = (continue, cp, [])
find_next next_cp cp ((end, start) ∷ rs) =
    let rest = find_next next_cp cp rs in
    if ltb cp start
    then rest
    else if leb cp end
    then if leb start 1 then (end_, cp, (end, start) ∷ rs) else (
      (if ltb jump_distance (next_cp - (start - 1)) then next_checkpoint else continue),
      start - 1,
      rs,
    )
    else (continue, cp, (end, start) ∷ rs)

unfoldable pub traverse_checkpoints : ℕ → Walk → MoveAction × Walk
unfolding announce find_next
traverse_checkpoints next_cp w =
    let v = announce (next_cp - w.cp) w.cp w in
    let (action, cp, ranges) = find_next next_cp next_cp v.ranges in
    (action, record v { cp = cp; ranges = ranges })
