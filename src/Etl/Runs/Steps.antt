-- ===== src/Etl/Runs/Steps.antt =====
-- One backfill of several: what it saves, and what the documents are afterwards.
use huracan.Prelude.{
  ℕ, ◌^◌, ◌≤◌, ◌<◌, ◌≡◌, ◌≢◌, ◌∙◌, ap, ◌⊎◌, inl, inr, true, false, List, [], ◌∷◌, ◌++◌, append-nil,
  ◌==◌, elem, Bool-cases, arith,
}
use huracan.Mongo.Commands.{Saves-split}
use huracan.Mongo.Documents.{IsDatabase}
use huracan.Etl.Scan.Counts.{items_of}
use huracan.Etl.Scan.Ledger.{told}
use huracan.Etl.Tail.Balance.{loads, announcements}
use huracan.Etl.Tail.Saved.{times}
use huracan.Etl.Pipeline.Counts.{Reach-init}
use huracan.Etl.Pipeline.Saved.{tail_of, IsExact, Reach-SavedAt}
use huracan.Etl.Backfill.Ranges.{is_complete}
use huracan.Etl.Backfill.Workers.{workers-IsExact}
use huracan.Etl.Backfill.Missing.{complete_silent, announced_missing}
use huracan.Etl.Runs.{nothing_saved, Setting, stored_checkpoints, Run, IsSized}
use huracan.Etl.Runs.Marks.{is_above, is_complete-Adds}
use huracan.Etl.Runs.Written.{Recovers, save_all-Saves, save_all-Executed, Wrote, Effects-Wrote}

elem-times : (x : ℕ) (xs : List ℕ) → elem x xs ≡ true → times x xs ≢ 0
elem-times x [] h e = cc
elem-times x (y ∷ ys) h e = elim (Bool-cases (elem x ys)) [
  | inl later ↦ elem-times x ys later (omega (arith, e))
  | inr not_later ↦ ground arith
]

module _ (setting : Setting) where
  open setting use {types, world, cfg, database, retries, num_checkpoint_workers}

  -- The control message of the checkpoint was handled, with the number of items sent for it, and as
  -- many items were loaded.
  pub record IsLoaded {d e : database.Docs} (run : Run setting d e) (x : ℕ) : Type 0 where
    pub announced : announcements x run.last.seen ≡ items_of x run.sent ∷ []
    pub loaded : loads x run.last.seen ≡ items_of x run.sent

  module _ {d e : database.Docs} (run : Run setting d e) (sized : IsSized setting run) where
    abbrev saved : List ℕ
    saved = (tail_of run.last).saved

    run-IsExact : IsExact run.sent run.control
    run-IsExact =
        workers-IsExact run.workers (stored_checkpoints setting d) run.checkpoint_max
          num_checkpoint_workers sized.positive sized.room (omega (arith, sized.fits)) run.sent
          run.control run.out

    saved-IsLoaded : (x : ℕ) → 1 ≤ x → elem x saved ≡ true → IsLoaded run x
    saved-IsLoaded x real h =
        let at =
          Reach-SavedAt types world run.sent run.control run-IsExact x run.last real run.reached in
        let some_save = elem-times x saved h in
        elim at.told_all [
          | inl quiet ↦ absurd (some_save (at.unannounced quiet))
          | inr one ↦ record {
            announced = one;
            loaded = elim (Bool-cases (loads x run.last.seen == items_of x run.sent)) [
              | inl same ↦ ground arith
              | inr other ↦ absurd (some_save (at.announced_once one ∙ ground arith))
            ];
          }
        ]

    saved_missing :
        (x : ℕ)
        → 1 ≤ x
        → elem x saved ≡ true
        → (x ≤ run.checkpoint_max) × (is_complete x (stored_checkpoints setting d) ≡ false)
    saved_missing x real h =
        announced_missing run.workers (stored_checkpoints setting d) run.checkpoint_max
          num_checkpoint_workers sized.positive sized.room (omega (arith, sized.fits)) x run.sent
          run.control run.out real
          (λ quiet.
            let (_, same) =
              Reach-init x types world run.sent run.control run.last real run.reached in
            let all = same ∙ quiet in
            let one = (saved-IsLoaded x real h).announced in cc (rw one at all))

    saved-Fit :
        (x : ℕ)
        → elem x saved ≡ true
        → (x < 2 ^ 63) × (is_above x (stored_checkpoints setting d) ≡ true)
    saved-Fit x h = elim (Bool-cases (x == 0)) [
      | inl zero_id ↦ (ground arith, ground arith)
      | inr real ↦
          let (low, missing) = saved_missing x (ground arith) h in
          (omega (arith, low, sized.fits), ground arith)
    ]

    module _ (lawful : IsDatabase database) where
      run-Wrote :
          Wrote cfg database lawful run.executes saved 0 run.commands
            (stored_checkpoints setting d)
            (stored_checkpoints setting e)
      run-Wrote =
          Effects-Wrote cfg database lawful run.executes saved 0 run.commands d e
            (Saves-split cfg saved run.commands run.later (
              rw run.issued at
                (save_all-Saves cfg run.executes retries saved saved nothing_saved (λ x h. h) tt)))
            saved-Fit run.effects

      -- Only checkpoints whose items were all loaded become complete.
      pub run_only :
          (x : ℕ)
          → 1 ≤ x
          → is_complete x (stored_checkpoints setting e) ≡ true
          → (is_complete x (stored_checkpoints setting d) ≡ true) ⊎ IsLoaded run x
      run_only x real h =
          let w = run-Wrote in
          let both =
            is_complete-Adds x w.ys (stored_checkpoints setting d) (stored_checkpoints setting e)
              w.adds in
          elim (Bool-cases (is_complete x (stored_checkpoints setting d))) [
            | inl old ↦ inl old
            | inr new ↦ inr (saved-IsLoaded x real (w.only x (ground (arith, both))))
          ]

      -- A complete checkpoint stays complete.
      pub run_keeps :
          (x : ℕ)
          → is_complete x (stored_checkpoints setting d) ≡ true
          → is_complete x (stored_checkpoints setting e) ≡ true
      run_keeps x h =
          let w = run-Wrote in
          is_complete-Adds x w.ys (stored_checkpoints setting d) (stored_checkpoints setting e)
            w.adds
          ∙ ground arith

      -- A saved checkpoint is complete, if all commands were sent and one for it was executed.
      pub run_saves :
          (x : ℕ)
          → elem x saved ≡ true
          → run.later ≡ []
          → Recovers cfg run.executes retries
          → is_complete x (stored_checkpoints setting e) ≡ true
      run_saves x h whole heals =
          let all = save_all-Executed cfg run.executes retries x saved nothing_saved heals h in
          let same = run.issued ∙ ap (λ cs. run.commands ++ cs) whole ∙ append-nil run.commands in
          ground (arith, run-Wrote.all_executed x h (rw same at all))

    -- Nothing is sent for a complete checkpoint.
    pub run_silent :
        (x : ℕ)
        → 1 ≤ x
        → is_complete x (stored_checkpoints setting d) ≡ true
        → (told x run.control ≡ []) × (items_of x run.sent ≡ 0)
    run_silent x real h =
        complete_silent run.workers (stored_checkpoints setting d) run.checkpoint_max
          num_checkpoint_workers sized.positive sized.room (omega (arith, sized.fits)) x run.sent
          run.control run.out real h
