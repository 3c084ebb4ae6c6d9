-- ===== src/Mongo/Retries.antt =====
-- How a checkpoint is saved, and what is reported.
use huracan.Prelude.{
  ℕ, zero, suc, ◌+◌, ◌≡◌, refl, ◌∙◌, inl, inr, Bool, length, length-append, if◌then◌else◌, min,
  Bool-cases, arith,
}
use huracan.Mongo.Names.{CollectionNames}
use huracan.Mongo.{Saving, send_save, report_failure, report_saved, mongo_checkpoint}

-- How many of the next `tries` commands fail, from the k-th on, before the first success.
abbrev pub failures : (ℕ → Bool) → ℕ → ℕ → ℕ
failures executes k zero = 0
failures executes k (suc tries) = if executes k then 0 else suc (failures executes (suc k) tries)

-- What a save with a number of retries adds, if `f` commands fail.
pub record Reports (retries f : ℕ) (s t : Saving) : Type 0 where
  pub sends : length t.commands ≡ length s.commands + min (f + 1) (retries + 1)
  pub counts_failures : t.write_errors ≡ s.write_errors + f
  pub claims_success : length t.created ≡ length s.created + 1

module _ (cfg : CollectionNames) (executes : ℕ → Bool) (cp : ℕ) where
  -- The state after a command, and after its failure.
  abbrev tried : Saving → Saving
  tried s = send_save cfg executes cp s

  abbrev failed_once : Saving → Saving
  failed_once s = report_failure cfg executes cp (tried s)

  length-send_save : (s : Saving) → length (tried s).commands ≡ length s.commands + 1
  unfolding send_save
  length-send_save s = length-append s.commands _

  length-failed_once : (s : Saving) → length (failed_once s).commands ≡ length s.commands + 1
  unfolding report_failure
  length-failed_once s = length-send_save s

  success-Reports :
      (retries : ℕ) (s : Saving) → Reports retries 0 s (report_saved cfg executes cp (tried s))
  unfolding report_saved send_save
  success-Reports retries s = record {
    sends = length-append s.commands _ ∙ omega arith;
    counts_failures = omega arith;
    claims_success = length-append s.created _;
  }

  last-Reports : (s : Saving) → Reports 0 1 s (report_saved cfg executes cp (failed_once s))
  unfolding report_saved report_failure send_save
  last-Reports s = record {
    sends = length-append s.commands _ ∙ omega arith;
    counts_failures = refl;
    claims_success = length-append s.created _;
  }

  next-Reports :
      (retries f : ℕ) (s t : Saving)
      → Reports retries f (failed_once s) t
      → Reports (suc retries) (suc f) s t
  unfolding report_failure send_save
  next-Reports retries f s t r = record {
    sends = r.sends ∙ omega (arith, length-append s.commands);
    counts_failures = r.counts_failures ∙ omega arith;
    claims_success = r.claims_success;
  }

  -- Saving a checkpoint sends commands until one is executed, at most one more than there are
  -- retries, and counts each failure. It always reports the checkpoint as created, also if all of
  -- the commands have failed.
  pub mongo_checkpoint-Reports :
      (retries : ℕ) (s : Saving)
      → Reports retries
          (failures executes (length s.commands) (suc retries))
          s
          (mongo_checkpoint cfg executes cp retries s)
  unfolding mongo_checkpoint
  mongo_checkpoint-Reports zero s = elim (Bool-cases (executes (length s.commands))) [
    | inl e ↦ simp e (success-Reports 0 s)
    | inr e ↦ simp e (last-Reports s)
  ]
  mongo_checkpoint-Reports (suc retries) s = elim (Bool-cases (executes (length s.commands))) [
    | inl e ↦ simp e (success-Reports (suc retries) s)
    | inr e ↦
        let ih : Reports retries (failures executes (suc (length s.commands)) (suc retries))
            (failed_once s) (mongo_checkpoint cfg executes cp retries (failed_once s)) =
          (let n : length (failed_once s).commands ≡ suc (length s.commands) =
              length-failed_once s ∙ omega arith in
            rw n at (mongo_checkpoint-Reports retries (failed_once s))) in
        simp e
          (next-Reports retries (failures executes (suc (length s.commands)) (suc retries)) s _ ih)
  ]
