-- ===== src/Etl/Tail/Saved.antt =====
-- When the last task of a pipeline saves a checkpoint.
use huracan.Prelude.{
  ℕ, suc, ◌+◌, ◌-◌, ◌≤◌, ◌<◌, ◌≡◌, refl, ap, inl, inr, Bool, true, false, Option, none, some, List,
  [], ◌∷◌, ◌++◌, ◌==◌, if◌then◌else◌, Bool-cases, Option-cases, arith,
}
use huracan.Prelude.Int.{ℤ, pos, negsuc, ◌+ℤ◌}
use huracan.Etl.Types.{ObjectItem, StepStatus, ok, err}
use huracan.Etl.Tail.{Message, loaded, announced, Tail, start, settle, resend, step, run}
use huracan.Etl.Tail.Balance.{loads, announcements, step-loaded}

-- How often a checkpoint stands in a list.
abbrev pub times : ℕ → List ℕ → ℕ
times x [] = 0
times x (y ∷ ys) = (if y == x then 1 else 0) + times x ys

times-append : (x : ℕ) (xs ys : List ℕ) → times x (xs ++ ys) ≡ times x xs + times x ys
times-append x [] ys = omega arith
times-append x (y ∷ xs) ys = omega (arith, times-append x xs ys)

module _ (cp n : ℕ) (real : 1 ≤ cp) where
  -- `k` items are loaded, and the number `n` is announced or not yet.
  abbrev AtStage : Bool → ℕ → Tail → Type 0
  AtStage false k t =
      (times cp t.saved ≡ 0)
      × (t.completions_left cp ≡ (if k == 0 then none else some (negsuc (k - 1))))
  AtStage true k t =
      (times cp t.saved ≡ (if k == n then 1 else 0))
      × (t.completions_left cp ≡ (if k == n then none else some (pos (n - k))))

  announce-AtStage :
      (k : ℕ) (t : Tail) → k ≤ n → AtStage false k t → AtStage true k (settle cp (pos n) t)
  unfolding settle ◌+ℤ◌
  announce-AtStage k t h (s, c) = ground (arith, times-append cp t.saved (cp ∷ []))

  load-AtStage :
      (a : Bool) (k : ℕ) (t : Tail)
      → k < n
      → AtStage a k t
      → AtStage a (suc k) (settle cp (negsuc 0) t)
  unfolding settle ◌+ℤ◌
  load-AtStage false k t h (s, c) = ground arith
  load-AtStage true k t h (s, c) = ground (arith, times-append cp t.saved (cp ∷ []))

  other-AtStage :
      (a : Bool) (k j : ℕ) (d : ℤ) (t : Tail)
      → (j == cp) ≡ false
      → AtStage a k t
      → AtStage a k (settle j d t)
  unfolding settle
  other-AtStage false k j d t h (s, c) = ground (arith, times-append cp t.saved (j ∷ []))
  other-AtStage true k j d t h (s, c) = ground (arith, times-append cp t.saved (j ∷ []))

  -- A stage is about the counter and the saved checkpoints alone.
  AtStage-along :
      (a : Bool) (k k' : ℕ) (t u : Tail)
      → u.completions_left ≡ t.completions_left
      → u.saved ≡ t.saved
      → k ≡ k'
      → AtStage a k t
      → AtStage a k' u
  AtStage-along false k k' t u l s e (x, y) = rw (l, s, ← e) (x, y)
  AtStage-along true k k' t u l s e (x, y) = rw (l, s, ← e) (x, y)

  resend-AtStage :
      (a : Bool) (k : ℕ) (status : StepStatus) (item : ObjectItem) (t : Tail)
      → AtStage a k t
      → AtStage a k (resend status item t)
  resend-AtStage a k ok item t h = h
  resend-AtStage a k err item t h = AtStage-along a k k t _ refl refl refl h

  -- A loaded item of some checkpoint.
  settle-AtStage :
      (a : Bool) (k j : ℕ) (t : Tail)
      → k + (if j == cp then 1 else 0) ≤ n
      → AtStage a k t
      → AtStage a (k + (if j == cp then 1 else 0)) (settle j (negsuc 0) t)
  settle-AtStage a k j t fits st = elim (Bool-cases (j == cp)) [
    | inl own ↦
        let c : j ≡ cp = ground arith in
        let u = settle cp (negsuc 0) t in
        let lt : k < n = ground arith in
        rw (own, c)
          (AtStage-along a (suc k) (k + 1) u u refl refl (omega arith) (load-AtStage a k t lt st))
    | inr other ↦
        let u = settle j (negsuc 0) t in
        rw other (
          AtStage-along a k (k + 0) u u refl refl (omega arith)
            (other-AtStage a k j (negsuc 0) t other st))
  ]

  loaded-AtStage :
      (a : Bool) (k : ℕ) (status : StepStatus) (item : ObjectItem) (at : Option ℕ) (t u : Tail)
      → step (loaded status item at) t ≡ some u
      → k + loads cp (loaded status item at ∷ []) ≤ n
      → AtStage a k t
      → AtStage a (k + loads cp (loaded status item at ∷ [])) u
  loaded-AtStage a k status item at t u h fits st =
      let (w, l, s, _, _, e) = step-loaded status item at t u h in
      let w-stage : AtStage a k w = AtStage-along a k k t w l s refl st in
      let w' = resend status item w in
      let w'-stage : AtStage a k w' = resend-AtStage a k status item w w-stage in
      elim (Bool-cases (item.cp == 0)) [
        | inl z ↦
            rw z (AtStage-along a k (k + 0) w u (ground arith) (ground arith) (omega arith) w-stage)
        | inr z ↦
            let v = settle item.cp (negsuc 0) w' in
            let e' : u ≡ v = ground arith in
            let one : ℕ = if item.cp == cp then 1 else 0 in
            let fits' : k + one ≤ n = ground arith in
            rw z (
              AtStage-along a (k + one) (k + (one + 0)) v u
                (ap (λ (t : Tail). t.completions_left) e') (ap (λ (t : Tail). t.saved) e')
                (omega arith) (settle-AtStage a k item.cp w' fits' w'-stage))
      ]

  -- The last task after the messages that are left, from a stage on.
  run_quiet :
      (a : Bool) (k : ℕ) (ms : List Message) (t u : Tail)
      → run ms t ≡ some u
      → announcements cp ms ≡ []
      → k + loads cp ms ≤ n
      → AtStage a k t
      → AtStage a (k + loads cp ms) u
  unfolding run
  run_quiet a k [] t u h e fits st =
      let same : u ≡ t = ground arith in
      AtStage-along a k (k + 0) t u (ap (λ (t : Tail). t.completions_left) same)
        (ap (λ (t : Tail). t.saved) same) (omega arith) st
  run_quiet a k (loaded status item at ∷ ms) t u h e fits st =
      elim (Option-cases (step (loaded status item at) t)) [
        | inl z ↦ cc (rw (z, run) at h)
        | inr (v, z) ↦
            let k' : ℕ = k + loads cp (loaded status item at ∷ []) in
            let mid : AtStage a k' v = loaded-AtStage a k status item at t v z (omega arith) st in
            AtStage-along a (k' + loads cp ms) (k + loads cp (loaded status item at ∷ ms)) u u refl
              refl (omega arith) (run_quiet a k' ms v u (rw (z, run) at h) e (omega arith) mid)
      ]
  run_quiet a k (announced j m ∷ ms) t u h e fits st =
      let other : (j == cp) ≡ false = ground arith in
      run_quiet a k ms (settle j (pos m) t) u h (ground arith) fits
        (other-AtStage a k j (pos m) t other st)

  run_announced :
      (k : ℕ) (ms : List Message) (t u : Tail)
      → run ms t ≡ some u
      → announcements cp ms ≡ n ∷ []
      → k + loads cp ms ≤ n
      → AtStage false k t
      → AtStage true (k + loads cp ms) u
  unfolding run
  run_announced k [] t u h e fits st = cc
  run_announced k (loaded status item at ∷ ms) t u h e fits st =
      elim (Option-cases (step (loaded status item at) t)) [
        | inl z ↦ cc (rw (z, run) at h)
        | inr (v, z) ↦
            let k' : ℕ = k + loads cp (loaded status item at ∷ []) in
            let mid : AtStage false k' v =
              loaded-AtStage false k status item at t v z (omega arith) st in
            AtStage-along true (k' + loads cp ms) (k + loads cp (loaded status item at ∷ ms)) u u
              refl refl (omega arith)
              (run_announced k' ms v u (rw (z, run) at h) e (omega arith) mid)
      ]
  run_announced k (announced j m ∷ ms) t u h e fits st = elim (Bool-cases (j == cp)) [
    | inl own ↦
        let c : j ≡ cp = ground arith in
        let same : m ≡ n = ground arith in
        run_quiet true k ms (settle j (pos m) t) u h (ground arith) fits
          (rw (c, same) (announce-AtStage k t (omega arith) st))
    | inr other ↦
        run_announced k ms (settle j (pos m) t) u h (ground arith) fits
          (other-AtStage false k j (pos m) t other st)
  ]

  -- A checkpoint that is announced once, with at least as many items as were loaded for it, is saved
  -- exactly once if all its items were loaded, and otherwise not at all. So it is in whatever order
  -- the messages of all the checkpoints come.
  pub times-saved :
      (ms : List Message) (u : Tail)
      → run ms start ≡ some u
      → announcements cp ms ≡ n ∷ []
      → loads cp ms ≤ n
      → times cp u.saved ≡ (if loads cp ms == n then 1 else 0)
  times-saved ms u h e fits =
      (AtStage-along true (0 + loads cp ms) (loads cp ms) u u refl refl (omega arith)
        (run_announced 0 ms start u h e (omega arith) start-AtStage)).0
    where
      start-AtStage : AtStage false 0 start
      start-AtStage = unfold start in (refl, refl)

-- A checkpoint that was never announced is never saved, however many of its items are loaded.
pub unannounced-saved :
    (cp : ℕ) (ms : List Message) (u : Tail)
    → 1 ≤ cp
    → run ms start ≡ some u
    → announcements cp ms ≡ []
    → times cp u.saved ≡ 0
unannounced-saved cp ms u real h e =
    (run_quiet cp (loads cp ms) real false 0 ms start u h e (omega arith)
      (unfold start in (refl, refl))).0
