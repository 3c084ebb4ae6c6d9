-- ===== src/Etl/Scan/Ledger.antt =====
-- The control messages of a whole scan against the items that it sent.
use huracan.Prelude.{
  append-nil, ℕ, zero, suc, ◌-◌, ◌*◌, ◌≤◌, ◌≡◌, ◌≢◌, refl, ◌∙◌, ap, ◌⊎◌, inl, inr, true, false,
  List, [], ◌∷◌, ◌++◌, ◌==◌, if◌then◌else◌, Bool-cases, ==_iff, arith,
}
use huracan.Etl.Types.{KeyStore}
use huracan.Etl.Scan.{
  Env, Scan, Fetched, finished, gave_up, closed, panicked, waiting, go_on, Ended, Verdict, all_done,
  skip, fetch, check_completed, scan_checkpoint, act, scan_loop,
}
use huracan.Etl.Scan.Counts.{items_of, Told, Reports, scan_checkpoint-Reports}

-- The counts of the control messages for a checkpoint.
abbrev pub told : ℕ → List (ℕ × ℕ) → List ℕ
told x [] = []
told x ((cp, n) ∷ cs) = let rest = told x cs in if cp == x then n ∷ rest else rest

pub told-append : (x : ℕ) (cs ds : List (ℕ × ℕ)) → told x (cs ++ ds) ≡ told x cs ++ told x ds
told-append x [] ds = refl
told-append x ((cp, n) ∷ cs) ds = ground (arith, told-append x cs ds)

module _ (store : KeyStore) (env : Env) (step : ℕ) (positive : 1 ≤ step) (x : ℕ) where
  -- At most one message for `x`, and that with the number of items sent for it.
  abbrev pub Exact : Scan store → Type 0
  Exact s = (told x s.control ≡ []) ⊎ (told x s.control ≡ items_of x s.sent ∷ [])

  -- The checkpoints from `cp` down are still to come.
  abbrev pub Ahead : ℕ → Scan store → Type 0
  Ahead cp s = x ≤ cp → (told x s.control ≡ []) × (items_of x s.sent ≡ 0)

  -- A checkpoint other than `x`, or one that did not come to its control message.
  pub told-same :
      (cp : ℕ) (s t : Scan store) (f : Fetched)
      → ((cp == x) ≡ false) ⊎ (f ≢ finished)
      → Told store env cp s t f
      → told x t.control ≡ told x s.control
  told-same cp s t finished (inl h) (c, n) =
      ap (told x) c
      ∙ ground
          (arith, told-append x s.control ((cp, t.num_objects) ∷ []), append-nil (told x s.control))
  told-same cp s t finished (inr h) c = absurd (h refl)
  told-same cp s t gave_up h c = ap (told x) c
  told-same cp s t closed h c = ap (told x) c
  told-same cp s t panicked h c = ap (told x) c
  told-same cp s t waiting h c = ap (told x) c

  told-own :
      (cp : ℕ) (s t : Scan store) (f : Fetched)
      → cp ≡ x
      → told x s.control ≡ []
      → items_of x s.sent ≡ 0
      → Told store env cp (record s { num_objects = 0 }) t f
      → Exact t
  told-own cp s t finished h e z (c, n) =
      let eq : (cp == x) ≡ true = (==_iff cp x).1 h in
      let n' : t.num_objects ≡ items_of x t.sent =
        omega (arith, ap (λ (y : ℕ). items_of y t.sent) h, ap (λ (y : ℕ). items_of y s.sent) h) in
      inr (ap (told x) c ∙ ground (arith, told-append x s.control ((cp, t.num_objects) ∷ [])))
  told-own cp s t gave_up h e z c = inl (ap (told x) c ∙ e)
  told-own cp s t closed h e z c = inl (ap (told x) c ∙ e)
  told-own cp s t panicked h e z c = inl (ap (told x) c ∙ e)
  told-own cp s t waiting h e z c = inl (ap (told x) c ∙ e)

  scanned :
      (cp : ℕ) (s t : Scan store) (f : Fetched)
      → 1 ≤ cp
      → Exact s
      → Ahead cp s
      → Reports store env cp (record s { num_objects = 0 }) (t, f)
      → Exact t × Ahead (cp - step) t
  scanned cp s t f pos e a (tell, others) = elim (Bool-cases (cp == x)) [
    | inl own ↦
        let h : cp ≡ x = ground arith in
        let (none_yet, no_items) = a (omega arith) in
        (told-own cp s t f h none_yet no_items tell, λ low. absurd (omega arith))
    | inr other ↦
        let same : told x t.control ≡ told x s.control =
          told-same cp (record s { num_objects = 0 }) t f (inl other) tell in
        let items : items_of x t.sent ≡ items_of x s.sent = others x (ground arith) in
        (rw (same, items) e, λ low. rw (same, items) (a (omega arith)))
  ]

  act-Exact :
      (cp : ℕ) (s : Scan store) (go : ℕ → List (ℕ × ℕ) → Scan store → Scan store × Ended)
      (v : Verdict)
      → 1 ≤ cp
      → Exact s
      → Ahead cp s
      → ((cp' : ℕ) (rs : List (ℕ × ℕ)) (t : Scan store)
          → Exact t
          → Ahead cp' t
          → Exact (go cp' rs t).0)
      → Exact (act store env step cp s go v).0
  unfolding act
  act-Exact cp s go all_done pos e a ih = e
  act-Exact cp s go (skip k rs) pos e a ih =
      ih (cp - step - k * step) rs s e (λ low. a (omega arith))
  act-Exact cp s go (fetch rs) pos e a ih =
      let r = scan_checkpoint store env cp s in
      let (e', a') = scanned cp s r.0 r.1 pos e a (scan_checkpoint-Reports store env cp s) in
      elim (Bool-cases (go_on (scan_checkpoint store env cp s).1)) [
        | inl on ↦ rw on (ih (cp - step) rs r.0 e' a')
        | inr off ↦ rw off e'
      ]

  -- However the scan goes and whenever it stops, it sends at most one control message for each
  -- checkpoint, and that states how many items it sent for the checkpoint.
  pub scan_loop-Exact :
      (fuel cp : ℕ) (ranges : List (ℕ × ℕ)) (s : Scan store)
      → Exact s
      → Ahead cp s
      → Exact (scan_loop store env fuel step cp ranges s).0
  unfolding scan_loop
  scan_loop-Exact zero cp ranges s e a = e
  scan_loop-Exact (suc fuel) cp ranges s e a = elim (Bool-cases (cp == 0)) [
    | inl z ↦ rw z e
    | inr pos ↦ elim (Bool-cases (env.stop cp)) [
      | inl z ↦ rw (pos, z) e
      | inr z ↦
          rw (pos, z)
            (act-Exact cp s (scan_loop store env fuel step) (check_completed cp step ranges)
              (ground arith) e a (λ cp' rs t e' a'. scan_loop-Exact fuel cp' rs t e' a'))
    ]
  ]
