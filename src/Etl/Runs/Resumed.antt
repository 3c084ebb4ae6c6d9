-- ===== src/Etl/Runs/Resumed.antt =====
-- What holds however often the program is stopped and started again.
use huracan.Prelude.{ℕ, ◌≤◌, ◌≡◌, ◌⊎◌, inl, inr, true, List, [], ◌∷◌, ◌==◌, elem, Bool-cases, arith}
use huracan.Mongo.Documents.{IsDatabase}
use huracan.Etl.Scan.Counts.{items_of}
use huracan.Etl.Transform.Balance.{items_for}
use huracan.Etl.Tail.Saved.{times}
use huracan.Etl.Pipeline.Saved.{tail_of}
use huracan.Etl.Pipeline.Complete.{IsLossless, IsDrained}
use huracan.Etl.Backfill.Ranges.{is_complete}
use huracan.Etl.Backfill.Saved.{IsUndisturbed, backfill_saved}
use huracan.Etl.Runs.{Setting, stored_checkpoints, Run, IsSized, History, begin_, after}
use huracan.Etl.Runs.Written.{Recovers}
use huracan.Etl.Runs.Steps.{IsLoaded, run_only, run_keeps, run_saves, run_silent}

times-elem : (x : ℕ) (xs : List ℕ) → 1 ≤ times x xs → elem x xs ≡ true
times-elem x [] h = absurd (omega arith)
times-elem x (y ∷ ys) h = elim (Bool-cases (y == x)) [
  | inl own ↦ ground arith
  | inr other ↦ ground (arith, times-elem x ys (ground arith))
]

module _ (setting : Setting) where
  open setting use {types, world, cfg, database, retries}

  -- One of the backfills has loaded all items of the checkpoint.
  abbrev pub WasLoaded : (x : ℕ) {d e : database.Docs} → History setting d e → Type 0
  WasLoaded x begin_ = ⊥
  WasLoaded x (after h run sized) = WasLoaded x h ⊎ IsLoaded setting run x

  -- None of the backfills has sent an item of the checkpoint.
  abbrev pub IsLeftOut : (x : ℕ) {d e : database.Docs} → History setting d e → Type 0
  IsLeftOut x begin_ = Unit
  IsLeftOut x (after h run sized) = IsLeftOut x h × (items_of x run.sent ≡ 0)

  -- A backfill that runs to its end: no crawl is ended from outside and the last page of each
  -- checkpoint comes, the RPC client answers all, no mongo worker panics, the channels are empty at the
  -- end, and the database takes each save within its retries.
  pub record IsFinished {d e : database.Docs} (run : Run setting d e) : Type 1 where
    pub undisturbed : IsUndisturbed run.workers
    pub lossless : IsLossless types world
    pub drained : IsDrained run.last
    pub whole : run.later ≡ []
    pub recovers : Recovers cfg run.executes retries

  module _ (lawful : IsDatabase database) where
    -- However often the backfill is stopped, at any moment, and started again: a checkpoint that
    -- counts as complete in the database was complete at the start, or one of the backfills has loaded
    -- all items that its crawl sent for the checkpoint.
    pub history-WasLoaded :
        (x : ℕ) {d e : database.Docs} (h : History setting d e)
        → 1 ≤ x
        → is_complete x (stored_checkpoints setting e) ≡ true
        → (is_complete x (stored_checkpoints setting d) ≡ true) ⊎ WasLoaded x h
    history-WasLoaded x begin_ real c = inl c
    history-WasLoaded x (after h run sized) real c =
        elim (run_only setting run sized lawful x real c) [
          | inr now ↦ inr (inr now)
          | inl old ↦ elim (history-WasLoaded x h real old) [
            | inl start ↦ inl start
            | inr before ↦ inr (inl before)
          ]
        ]

    history_keeps :
        (x : ℕ) {d e : database.Docs} (h : History setting d e)
        → is_complete x (stored_checkpoints setting d) ≡ true
        → is_complete x (stored_checkpoints setting e) ≡ true
    history_keeps x begin_ c = c
    history_keeps x (after h run sized) c =
        run_keeps setting run sized lawful x (history_keeps x h c)

    -- A checkpoint that is complete stays complete through all backfills that follow, also those that
    -- are stopped at any moment, and none of them sends an item of the checkpoint again.
    pub history-IsLeftOut :
        (x : ℕ) {d e : database.Docs} (h : History setting d e)
        → 1 ≤ x
        → is_complete x (stored_checkpoints setting d) ≡ true
        → (is_complete x (stored_checkpoints setting e) ≡ true) × IsLeftOut x h
    history-IsLeftOut x begin_ real c = (c, tt)
    history-IsLeftOut x (after h run sized) real c =
        let (before, out) = history-IsLeftOut x h real c in
        (
          run_keeps setting run sized lawful x before,
          (out, (run_silent setting run sized x real before).1),
        )

    -- After one backfill that has run to its end, whatever the earlier ones have left: each checkpoint
    -- up to its `checkpoint_max` is complete, if none of its items was put back for a retry, and it
    -- stays so through all backfills that follow. To its end means: nothing from outside ended its
    -- workers, the last page of each checkpoint came, each object that the RPC client returned was
    -- usable, no mongo worker panicked, all channels were emptied, and each save was executed within
    -- its retries.
    pub finished_complete :
        (x : ℕ) {d e f : database.Docs} (run : Run setting d e) (h : History setting e f)
        → IsSized setting run
        → IsFinished run
        → 1 ≤ x
        → x ≤ run.checkpoint_max
        → items_for x run.last.retries ≡ 0
        → is_complete x (stored_checkpoints setting f) ≡ true
    finished_complete x {d = d} run h sized fin low high retried =
        history_keeps x h (elim (Bool-cases (is_complete x (stored_checkpoints setting d))) [
          | inl old ↦ run_keeps setting run sized lawful x old
          | inr missing ↦
              run_saves setting run sized lawful x
                (times-elem x (tail_of run.last).saved (
                  omega (
                    arith,
                    backfill_saved types world run.workers (stored_checkpoints setting d)
                        run.checkpoint_max setting.num_checkpoint_workers run.sent run.control x
                        run.last sized.positive sized.room (omega (arith, sized.fits))
                        fin.undisturbed fin.lossless run.out low high missing run.reached
                        fin.drained retried,
                  )))
                fin.whole fin.recovers
        ])
