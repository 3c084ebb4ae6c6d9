-- ===== src/Etl/Scan/Complete.antt =====
-- A worker that nothing stops reaches every checkpoint of its share that is not complete yet.
use native.Mathlib.Nat.{div-add-mod', mul-le-mul_right}
use huracan.Prelude.{
  ℕ, zero, suc, ◌+◌, ◌-◌, ◌*◌, ◌/◌, ◌≤◌, ◌<◌, ◌≡◌, ◌≢◌, refl, ◌∙◌, ◌⊎◌, inl, inr, true, false, List,
  ◌||◌, ltb, ◌==◌, Bool-cases, arith,
}
use huracan.Etl.Types.{KeyStore}
use huracan.Utils.Coverage.{covered}
use huracan.Utils.Order.{IsDescending}
use huracan.Etl.Scan.{
  Env, Scan, Ended, exhausted, out_of_fuel, unanswered, ended_by, Fetched, finished, gave_up,
  closed, panicked, waiting, go_on, Verdict, all_done, skip, fetch, check_completed,
  scan_checkpoint, act, scan_loop,
}
use huracan.Etl.Scan.Queries.{asked, asked-scan_checkpoint}
use huracan.Etl.Scan.Decision.{Explains, check_completed-Explains}
use huracan.Etl.Scan.Flow.{IsFlowing, Settles, scan_checkpoint-answered, scan_checkpoint-Goes}
use huracan.Etl.Scan.Coverage.{OnGrid}

-- A number of the grid below `start` is still on the grid that a skip leaves.
grid_skip :
    (cp step start k x j : ℕ)
    → start ≤ cp
    → k ≡ (cp - start) / step
    → x < start
    → x + j * step ≡ cp
    → k < j
grid_skip cp step start k x j low eq lt e = elim (Bool-cases (ltb k j)) [
  | inl h ↦ ground arith
  | inr h ↦
      let bound : j * step ≤ k * step = mul-le-mul_right step (ground arith) in
      let whole : k * step ≤ cp - start = rw eq (omega (arith, div-add-mod' (cp - start) step)) in
      absurd (omega arith)
]

grid_rest : (cp step k x i : ℕ) → x + (k + 1 + i) * step ≡ cp → x + i * step ≡ cp - step - k * step
grid_rest cp step k x i e = omega arith

grid_pred :
    (cp step x j : ℕ) → (x == cp) ≡ false → x + j * step ≡ cp → (i : ℕ) × (x + i * step ≡ cp - step)
grid_pred cp step x zero ne e = absurd (let same : x ≡ cp = omega arith in ground arith)
grid_pred cp step x (suc i) ne e = (i, omega arith)

module _ (store : KeyStore) (env : Env) (flowing : IsFlowing env) (step x : ℕ) where
  -- The loop ends by itself with `x` asked for, if it was before or is on the way.
  abbrev pub Reaches : ℕ → List (ℕ × ℕ) → Scan store → Scan store × Ended → Type 0
  Reaches cp ranges s r =
      (r.1 ≡ exhausted)
      × ((asked x s.queries ≡ true) ⊎ (OnGrid step cp x × (covered x ranges ≡ false))
          → asked x r.0.queries ≡ true)

  OnGrid-skip :
      (cp start k : ℕ)
      → start ≤ cp
      → k ≡ (cp - start) / step
      → x < start
      → OnGrid step cp x
      → OnGrid step (cp - step - k * step) x
  OnGrid-skip cp start k low eq lt (p, (j, e)) =
      let more : k < j = grid_skip cp step start k x j low eq lt e in
      let same : k + 1 + (j - k - 1) ≡ j = omega arith in
      (p, (j - k - 1, grid_rest cp step k x (j - k - 1) (rw same e)))

  abbrev Go : Type 0
  Go = ℕ → List (ℕ × ℕ) → Scan store → Scan store × Ended

  act-Reaches :
      (fuel cp : ℕ) (ranges : List (ℕ × ℕ)) (s : Scan store) (go : Go) (v : Verdict)
      → 1 ≤ step
      → 1 ≤ cp
      → cp ≤ fuel
      → s.is_closed ≡ false
      → Explains cp step ranges v
      → ((cp' : ℕ) (rs : List (ℕ × ℕ)) (s' : Scan store)
          → cp' < fuel
          → s'.is_closed ≡ false
          → IsDescending 0 rs
          → Reaches cp' rs s' (go cp' rs s'))
      → Reaches cp ranges s (act store env step cp s go v)
  unfolding act
  act-Reaches fuel cp ranges s go all_done st pos f o ex ih = (
    refl,
    λ h. elim h [
      | inl old ↦ old
      | inr ((p, (j, e)), new) ↦ let c : covered x ranges ≡ true = ex x p (omega arith) in cc
    ],
  )
  act-Reaches fuel cp ranges s go (skip k rs) st pos f o (start, low, eq, inside, below, d) ih =
      let (ends, on) = ih (cp - step - k * step) rs s (omega arith) o d in
      (
        ends,
        λ h. elim h [
          | inl old ↦ on (inl old)
          | inr (g, new) ↦ elim (Bool-cases (ltb x start)) [
            | inl lt ↦
                let lt' : x < start = ground arith in
                on (inr (OnGrid-skip cp start k low eq lt' g, below x lt' ∙ new))
            | inr ge ↦
                let (p, (j, e)) = g in
                let c : covered x ranges ≡ true = inside x (ground arith) (omega arith) in cc
          ]
        ],
      )
  act-Reaches fuel cp ranges s go (fetch rs) st pos f o (new, same, d) ih =
      let t = scan_checkpoint store env cp s in
      let (on, still) = scan_checkpoint-Goes store env flowing cp s o in
      rw on (
        fetched t.0 (asked-scan_checkpoint store env x cp s)
          (ih (cp - step) rs t.0 (omega arith) still d))
    where
      fetched :
          (t : Scan store)
          → asked x t.queries ≡ (asked x s.queries || x == cp)
          → Reaches (cp - step) rs t (go (cp - step) rs t)
          → Reaches cp ranges s (go (cp - step) rs t)
      fetched t e (ends, on) = (
        ends,
        λ h. elim (Bool-cases (asked x t.queries)) [
          | inl y ↦ on (inl y)
          | inr n ↦ elim h [
            | inl old ↦ on (inl (ground arith))
            | inr ((p, (j, g)), fresh) ↦
                let down = grid_pred cp step x j (ground arith) g in
                on (inr ((p, down), same x (omega arith) ∙ fresh))
          ]
        ],
      )

  pub scan_loop-Reaches :
      (fuel cp : ℕ) (ranges : List (ℕ × ℕ)) (s : Scan store)
      → 1 ≤ step
      → cp < fuel
      → s.is_closed ≡ false
      → IsDescending 0 ranges
      → Reaches cp ranges s (scan_loop store env fuel step cp ranges s)
  unfolding scan_loop
  scan_loop-Reaches zero cp ranges s st f o d = absurd (omega arith)
  scan_loop-Reaches (suc fuel) cp ranges s st f o d = elim (Bool-cases (cp == 0)) [
    | inl z ↦ rw z (
      refl,
      λ h. elim h [
        | inl old ↦ old
        | inr ((p, (j, e)), new) ↦ absurd (let z' : cp ≡ 0 = ground arith in omega arith)
      ],
    )
    | inr pos ↦
        rw (pos, flowing.unstopped cp)
          (act-Reaches fuel cp ranges s (scan_loop store env fuel step)
            (check_completed cp step ranges) st (ground arith) (omega arith) o
            (check_completed-Explains cp step ranges d)
            (λ cp' rs s' f' o' d'. scan_loop-Reaches fuel cp' rs s' st f' o' d'))
  ]

-- The crawl has ended: it neither needs more fuel nor waits for an answer.
abbrev pub HasEnded : Ended → Type 0
HasEnded e = (e ≢ out_of_fuel) × (e ≢ unanswered)

ended_by-HasEnded : (f : Fetched) → f ≢ waiting → HasEnded (ended_by f)
ended_by-HasEnded finished h = ((λ e. cc), (λ e. cc))
ended_by-HasEnded gave_up h = ((λ e. cc), (λ e. cc))
ended_by-HasEnded closed h = ((λ e. cc), (λ e. cc))
ended_by-HasEnded panicked h = ((λ e. cc), (λ e. cc))
ended_by-HasEnded waiting h = absurd (h refl)

module _ (store : KeyStore) (env : Env) (step : ℕ) (positive : 1 ≤ step)
    (answers : (cp : ℕ)
      → Settles env.checkpointretries env.checkpointretries (env.responses cp)) where
  act-HasEnded :
      (fuel cp : ℕ) (s : Scan store) (go : ℕ → List (ℕ × ℕ) → Scan store → Scan store × Ended)
      (v : Verdict)
      → 1 ≤ cp
      → cp ≤ fuel
      → ((cp' : ℕ) (rs : List (ℕ × ℕ)) (s' : Scan store) → cp' < fuel → HasEnded (go cp' rs s').1)
      → HasEnded (act store env step cp s go v).1
  unfolding act
  act-HasEnded fuel cp s go all_done pos f ih = ((λ e. cc), (λ e. cc))
  act-HasEnded fuel cp s go (skip k rs) pos f ih = ih (cp - step - k * step) rs s (omega arith)
  act-HasEnded fuel cp s go (fetch rs) pos f ih =
      let r = scan_checkpoint store env cp s in
      elim (Bool-cases (go_on r.1)) [
        | inl on ↦ simp on (ih (cp - step) rs r.0 (omega arith))
        | inr off ↦
            simp off (ended_by-HasEnded r.1 (scan_checkpoint-answered store env cp s (answers cp)))
      ]

  -- Whatever the other tasks do, the fuel that `do_scan` starts with is enough.
  pub scan_loop-HasEnded :
      (fuel cp : ℕ) (ranges : List (ℕ × ℕ)) (s : Scan store)
      → cp < fuel
      → HasEnded (scan_loop store env fuel step cp ranges s).1
  unfolding scan_loop
  scan_loop-HasEnded zero cp ranges s f = absurd (omega arith)
  scan_loop-HasEnded (suc fuel) cp ranges s f = elim (Bool-cases (cp == 0)) [
    | inl z ↦ simp z ((λ e. cc), (λ e. cc))
    | inr pos ↦ elim (Bool-cases (env.stop cp)) [
      | inl z ↦ simp (pos, z) ((λ e. cc), (λ e. cc))
      | inr z ↦
          simp (pos, z)
            (act-HasEnded fuel cp s (scan_loop store env fuel step) (check_completed cp step ranges)
              (ground arith) (omega arith) (scan_loop-HasEnded fuel))
    ]
  ]
