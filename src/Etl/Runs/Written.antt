-- ===== src/Etl/Runs/Written.antt =====
-- What the saves of a backfill leave in the database.
use huracan.Prelude.{
  ℕ, suc, ◌^◌, ◌≤◌, ◌<◌, ◌≡◌, sym, ◌∙◌, ap, inl, inr, Bool, true, List, [], ◌∷◌, length, ◌==◌, elem,
  Bool-cases, arith,
}
use huracan.Prelude.Int.{pos, pos_part, to_i64}
use huracan.Mongo.{Checkpoint, Command, Saving, mongo_checkpoint}
use huracan.Mongo.Names.{CollectionNames}
use huracan.Mongo.Commands.{
  checkpoints_of, command, Saves, Executed, mongo_checkpoint-Saves, mongo_checkpoint-keeps,
  mongo_checkpoint-Executed,
}
use huracan.Mongo.Retries.{failures}
use huracan.Mongo.Documents.{Database, IsDatabase}
use huracan.Etl.Backfill.{ids}
use huracan.Etl.Runs.{save_all, Effects, no_command, executed, refused}
use huracan.Etl.Runs.Marks.{Adds, is_above, Adds-none, Adds-append, upsert-Adds}

module _ (cfg : CollectionNames) (executes : ℕ → Bool) (retries : ℕ) where
  pub save_all-Saves :
      (cps all : List ℕ) (s : Saving)
      → ((x : ℕ) → elem x cps ≡ true → elem x all ≡ true)
      → Saves cfg all s.commands
      → Saves cfg all (save_all cfg executes retries cps s).commands
  unfolding save_all
  save_all-Saves [] all s h p = p
  save_all-Saves (cp ∷ cps) all s h p =
      save_all-Saves cps all (mongo_checkpoint cfg executes cp retries s)
        (λ x e. h x (ground arith))
        (mongo_checkpoint-Saves cfg executes cp retries s all (h cp (ground arith)) p)

  save_all-keeps :
      (x : ℕ) (cps : List ℕ) (s : Saving)
      → Executed cfg executes x 0 s.commands
      → Executed cfg executes x 0 (save_all cfg executes retries cps s).commands
  unfolding save_all
  save_all-keeps x [] s p = p
  save_all-keeps x (cp ∷ cps) s p =
      save_all-keeps x cps _ (mongo_checkpoint-keeps cfg executes x cp retries s p)

  -- The database never refuses all the tries of a save.
  abbrev pub Recovers : Type 0
  Recovers = (k : ℕ) → failures executes k (suc retries) ≤ retries

  pub save_all-Executed :
      (x : ℕ) (cps : List ℕ) (s : Saving)
      → Recovers
      → elem x cps ≡ true
      → Executed cfg executes x 0 (save_all cfg executes retries cps s).commands
  unfolding save_all
  save_all-Executed x [] s h e = cc
  save_all-Executed x (cp ∷ cps) s h e = elim (Bool-cases (x == cp)) [
    | inl own ↦
        (let same : x ≡ cp = ground arith in
          rw same (
            save_all-keeps cp cps _
              (mongo_checkpoint-Executed cfg executes cp retries s (h (length s.commands)))))
    | inr other ↦ save_all-Executed x cps _ h (ground arith)
  ]

module _ (cfg : CollectionNames) (database : Database) (lawful : IsDatabase database)
    (executes : ℕ → Bool) where
  abbrev docs_of : database.Docs → List Checkpoint
  docs_of d = database.find (checkpoints_of cfg) d

  -- The checkpoints that may be saved: real i64 numbers above the stop mark.
  abbrev pub Fit : List ℕ → List Checkpoint → Type 0
  Fit cps docs = (x : ℕ) → elem x cps ≡ true → (x < 2 ^ 63) × (is_above x docs ≡ true)

  run_command-Adds :
      (cp : ℕ) (d : database.Docs)
      → cp < 2 ^ 63
      → is_above cp (docs_of d) ≡ true
      → Adds (cp ∷ []) (docs_of d) (docs_of (database.run_command (command cfg cp) d))
  run_command-Adds cp d small h =
      let same : to_i64 cp ≡ pos cp = ground arith in
      rw same (upsert-Adds cp (docs_of d) _ h (lawful.upserts (checkpoints_of cfg) cp d small))

  Adds-Fit :
      (ys cps : List ℕ) (docs new : List Checkpoint) → Adds ys docs new → Fit cps docs → Fit cps new
  Adds-Fit ys cps docs new a fit x i =
      let (small, above) = fit x i in (small, ground (arith, a.stops))

  -- What has been written, by commands of which some may have been refused.
  pub record Wrote (cps : List ℕ) (k : ℕ) (cs : List Command) (docs new : List Checkpoint)
      : Type 0 where
    pub ys : List ℕ
    pub adds : Adds ys docs new
    pub only : (x : ℕ) → elem x ys ≡ true → elem x cps ≡ true
    pub all_executed :
        (x : ℕ) → elem x cps ≡ true → Executed cfg executes x k cs → elem x (ids new) ≡ true

  command-injective : (x y : ℕ) → x < 2 ^ 63 → y < 2 ^ 63 → command cfg x ≡ command cfg y → x ≡ y
  command-injective x y h k e =
      let numbers : pos_part (to_i64 x) ≡ pos_part (to_i64 y) =
        ap (λ (c : Command). pos_part c.id) e in
      ground (arith, numbers)

  Wrote-executed :
      (cps : List ℕ) (k cp : ℕ) (c : Command) (cs : List Command) (d : database.Docs)
      (new : List Checkpoint)
      → elem cp cps ≡ true
      → c ≡ command cfg cp
      → Fit cps (docs_of d)
      → Wrote cps (suc k) cs (docs_of (database.run_command c d)) new
      → Wrote cps k (c ∷ cs) (docs_of d) new
  Wrote-executed cps k cp c cs d new i e fit w =
      let (small, above) = fit cp i in
      let one : Adds (cp ∷ []) (docs_of d) (docs_of (database.run_command c d)) =
        rw e (run_command-Adds cp d small above) in
      let both = Adds-append (cp ∷ []) w.ys (docs_of d) _ new one w.adds in
      record {
        ys = cp ∷ w.ys;
        adds = both;
        only = λ x j. elim (Bool-cases (x == cp)) [
          | inl own ↦ (let same : x ≡ cp = ground arith in rw same i)
          | inr other ↦ w.only x (ground arith)
        ];
        all_executed = λ x j r. elim r [
          | inl (_, f) ↦
              (let same = command-injective x cp (fit x j).0 small (sym f ∙ e) in
                ground (arith, both.stored x))
          | inr later ↦ w.all_executed x j later
        ];
      }

  pub Effects-Wrote :
      (cps : List ℕ) (k : ℕ) (cs : List Command) (d e : database.Docs)
      → Saves cfg cps cs
      → Fit cps (docs_of d)
      → Effects database executes k cs d e
      → Wrote cps k cs (docs_of d) (docs_of e)
  Effects-Wrote cps k cs d e p fit no_command = record {
    ys = [];
    adds = Adds-none (docs_of d);
    only = λ x i. cc;
    all_executed = λ x i r. absurd r;
  }
  Effects-Wrote cps k (c ∷ cs) d e p fit (executed f) =
      let (cp, i, same) = p.0 in
      let (small, above) = fit cp i in
      let mid = docs_of (database.run_command c d) in
      let one : Adds (cp ∷ []) (docs_of d) mid = rw same (run_command-Adds cp d small above) in
      Wrote-executed cps k cp c cs d (docs_of e) i same fit
        (Effects-Wrote cps (suc k) cs _ e p.1 (Adds-Fit (cp ∷ []) cps (docs_of d) mid one fit) f)
  Effects-Wrote cps k (c ∷ cs) d e p fit (refused failed f) =
      let w = Effects-Wrote cps (suc k) cs d e p.1 fit f in
      record {
        ys = w.ys;
        adds = w.adds;
        only = w.only;
        all_executed = λ x i r. elim r [
          | inl (worked, _) ↦ absurd (ground arith)
          | inr later ↦ w.all_executed x i later
        ];
      }
