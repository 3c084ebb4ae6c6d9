-- ===== src/Mongo/Commands.antt =====
-- The commands that `mongo_checkpoint` sends for a checkpoint, among those of other checkpoints.
use Prim.Native.String.{String}
use huracan.Prelude.{
  ℕ, zero, suc, ◌+◌, ◌≤◌, ◌≡◌, refl, ◌⊎◌, inl, inr, Bool, true, false, ◌∙◌, List, [], ◌∷◌, ◌++◌,
  length, elem, length-append, Bool-cases, arith,
}
use huracan.Prelude.Int.{to_i64}
use huracan.Mongo.{Command, Saving, send_save, report_failure, report_saved, mongo_checkpoint}
use huracan.Mongo.Names.{CollectionNames, mongo_collection_name}
use huracan.Mongo.Retries.{failures}

-- Where the checkpoints are stored, and what a save sends.
unfoldable pub checkpoints_of : CollectionNames → String
checkpoints_of cfg = mongo_collection_name cfg "_checkpoints"

abbrev pub command : CollectionNames → ℕ → Command
command cfg cp = record { update = checkpoints_of cfg; id = to_i64 cp }

module _ (cfg : CollectionNames) where
  -- Each command saves one of the checkpoints.
  abbrev pub Saves : List ℕ → List Command → Type 0
  Saves cps [] = Unit
  Saves cps (c ∷ cs) = ((cp : ℕ) × (elem cp cps ≡ true) × (c ≡ command cfg cp)) × Saves cps cs

  Saves-append :
      (cps : List ℕ) (cs ds : List Command) → Saves cps cs → Saves cps ds → Saves cps (cs ++ ds)
  Saves-append cps [] ds p q = q
  Saves-append cps (c ∷ cs) ds (i, p) q = (i, Saves-append cps cs ds p q)

  pub Saves-split : (cps : List ℕ) (cs ds : List Command) → Saves cps (cs ++ ds) → Saves cps cs
  Saves-split cps [] ds p = tt
  Saves-split cps (c ∷ cs) ds (i, p) = (i, Saves-split cps cs ds p)

  -- A save of the checkpoint that is executed, among commands from the k-th on.
  abbrev pub Executed : (ℕ → Bool) → ℕ → ℕ → List Command → Type 0
  Executed executes cp k [] = ⊥
  Executed executes cp k (c ∷ cs) =
      ((executes k ≡ true) × (c ≡ command cfg cp)) ⊎ Executed executes cp (suc k) cs

  module _ (executes : ℕ → Bool) where
    Executed-append :
        (cp k : ℕ) (cs ds : List Command)
        → Executed executes cp k cs
        → Executed executes cp k (cs ++ ds)
    Executed-append cp k [] ds p = absurd p
    Executed-append cp k (c ∷ cs) ds (inl p) = inl p
    Executed-append cp k (c ∷ cs) ds (inr p) = inr (Executed-append cp (suc k) cs ds p)

    Executed-later :
        (cp k m : ℕ) (cs ds : List Command)
        → m ≡ k + length cs
        → Executed executes cp m ds
        → Executed executes cp k (cs ++ ds)
    Executed-later cp k m [] ds e p = let same : m ≡ k = omega (arith, e) in rw same at p
    Executed-later cp k m (c ∷ cs) ds e p =
        inr (Executed-later cp (suc k) m cs ds (omega (arith, e)) p)

    -- The state after a command, and after its failure.
    abbrev tried : ℕ → Saving → Saving
    tried cp s = send_save cfg executes cp s

    abbrev failed_once : ℕ → Saving → Saving
    failed_once cp s = report_failure cfg executes cp (tried cp s)

    -- What a save sends is for its checkpoint alone.
    pub mongo_checkpoint-Saves :
        (cp retries : ℕ) (s : Saving) (cps : List ℕ)
        → elem cp cps ≡ true
        → Saves cps s.commands
        → Saves cps (mongo_checkpoint cfg executes cp retries s).commands
    unfolding mongo_checkpoint send_save report_failure report_saved checkpoints_of
    mongo_checkpoint-Saves cp zero s cps i p =
        let sent = Saves-append cps s.commands _ p ((cp, i, refl), tt) in
        elim (Bool-cases (executes (length s.commands))) [
          | inl e ↦ simp e sent
          | inr e ↦ simp e sent
        ]
    mongo_checkpoint-Saves cp (suc retries) s cps i p =
        let sent = Saves-append cps s.commands _ p ((cp, i, refl), tt) in
        elim (Bool-cases (executes (length s.commands))) [
          | inl e ↦ simp e sent
          | inr e ↦ simp e (mongo_checkpoint-Saves cp retries (failed_once cp s) cps i sent)
        ]

    failed_once-Executed :
        (cp retries : ℕ) (s : Saving)
        → executes (length s.commands) ≡ false
        → failures executes (length s.commands) (suc (suc retries)) ≤ suc retries
        → failures executes (length (failed_once cp s).commands) (suc retries) ≤ retries
    unfolding send_save report_failure
    failed_once-Executed cp retries s e h =
        let n : length (failed_once cp s).commands ≡ suc (length s.commands) =
          length-append s.commands _ ∙ omega arith in
        rw n (ground (arith, h))

    -- One of the commands for the checkpoint is executed, if not all of the tries fail.
    pub mongo_checkpoint-Executed :
        (cp retries : ℕ) (s : Saving)
        → failures executes (length s.commands) (suc retries) ≤ retries
        → Executed executes cp 0 (mongo_checkpoint cfg executes cp retries s).commands
    unfolding mongo_checkpoint send_save report_failure report_saved checkpoints_of
    mongo_checkpoint-Executed cp zero s h = elim (Bool-cases (executes (length s.commands))) [
      | inl e ↦ simp e (Executed-later cp 0 _ s.commands _ (omega arith) (inl (e, refl)))
      | inr e ↦ absurd (ground arith)
    ]
    mongo_checkpoint-Executed cp (suc retries) s h =
        elim (Bool-cases (executes (length s.commands))) [
          | inl e ↦ simp e (Executed-later cp 0 _ s.commands _ (omega arith) (inl (e, refl)))
          | inr e ↦ simp e (
              mongo_checkpoint-Executed cp retries (failed_once cp s)
                (failed_once-Executed cp retries s e h))
        ]

    -- What was executed before stays among the commands.
    pub mongo_checkpoint-keeps :
        (x cp retries : ℕ) (s : Saving)
        → Executed executes x 0 s.commands
        → Executed executes x 0 (mongo_checkpoint cfg executes cp retries s).commands
    unfolding mongo_checkpoint send_save report_failure report_saved
    mongo_checkpoint-keeps x cp zero s p =
        let sent = Executed-append x 0 s.commands _ p in
        elim (Bool-cases (executes (length s.commands))) [
          | inl e ↦ simp e sent
          | inr e ↦ simp e sent
        ]
    mongo_checkpoint-keeps x cp (suc retries) s p =
        let sent = Executed-append x 0 s.commands _ p in
        elim (Bool-cases (executes (length s.commands))) [
          | inl e ↦ simp e sent
          | inr e ↦ simp e (mongo_checkpoint-keeps x cp retries (failed_once cp s) sent)
        ]
