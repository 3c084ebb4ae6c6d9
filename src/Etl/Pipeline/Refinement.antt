-- ===== src/Etl/Pipeline/Refinement.antt =====
-- The last task of a pipeline as the tracker of its checkpoints.
use huracan.Prelude.{
  append-nil, ℕ, ◌+◌, ◌≤◌, ◌≡◌, sym, ◌∙◌, ap, ◌⊎◌, inl, inr, Bool, true, false, Option, List, [],
  ◌∷◌, ◌++◌, ◌==◌, if◌then◌else◌, Bool-cases, arith,
}
use huracan.Client.Objects.{ObjectTypes}
use huracan.Etl.Types.{ObjectItem, StepStatus}
use huracan.Etl.Scan.Counts.{items_of}
use huracan.Etl.Tail.{Message, loaded, announced, start, run}
use huracan.Etl.Tail.Balance.{loads, announcements}
use huracan.Etl.Tail.Saved.{times}
use huracan.Etl.Pipeline.{
  Pipeline, init, World, Step, crawl_item, crawl_control, transform, write, track_loaded,
  track_announced, Reach, next,
}
use huracan.Etl.Pipeline.Counts.{loads-append, announcements-append}
use huracan.Etl.Pipeline.Tracker.{SameAt, Tracks, stay, move}
use huracan.Etl.Pipeline.Saved.{or_start, view, IsExact, SavedAt, Reach-SavedAt}

module _ (types : ObjectTypes) (world : World types) (sent : List (Option ℕ × ObjectItem))
    (control : List (ℕ × ℕ)) where
  abbrev At : ℕ → Pipeline → Type 0
  At x s = SavedAt types world sent control x s

  module _ (exact : IsExact sent control) where
    -- What `SavedAt` says of two states decides how they follow each other.
    same_at :
        (x : ℕ) (s t : Pipeline)
        → At x s
        → At x t
        → loads x t.seen ≡ loads x s.seen
        → announcements x t.seen ≡ announcements x s.seen
        → SameAt x (view s) (view t)
    same_at x s t p q l a = (
      l,
      elim p.told_all [
        | inl z ↦ q.unannounced (a ∙ z) ∙ sym (p.unannounced z)
        | inr z ↦ q.announced_once (a ∙ z) ∙ rw l (sym (p.announced_once z))
      ],
    )

    loaded_one :
        (x : ℕ) (s t : Pipeline)
        → At x s
        → At x t
        → loads x t.seen ≡ loads x s.seen + 1
        → announcements x t.seen ≡ announcements x s.seen
        → ((view t).saved x ≡ (view s).saved x)
          ⊎ (((view s).saved x ≡ 0) × ((view t).saved x ≡ 1) × (loads x t.seen ≡ items_of x sent))
    loaded_one x s t p q l a = elim p.told_all [
      | inl z ↦ inl (q.unannounced (a ∙ z) ∙ sym (p.unannounced z))
      | inr z ↦
          (let before = p.announced_once z in
            let after = q.announced_once (a ∙ z) in
            let fits = q.fits in
            elim (Bool-cases (loads x t.seen == items_of x sent)) [
              | inl full ↦ inr (before ∙ ground arith, after ∙ ground arith, ground arith)
              | inr more ↦ inl (after ∙ ground arith)
            ])
    ]

    announced_one :
        (x n : ℕ) (s t : Pipeline)
        → At x s
        → At x t
        → loads x t.seen ≡ loads x s.seen
        → announcements x t.seen ≡ announcements x s.seen ++ n ∷ []
        → ((view t).saved x ≡ (view s).saved x)
          ⊎ (((view s).saved x ≡ 0) × ((view t).saved x ≡ 1) × (loads x t.seen ≡ items_of x sent))
    announced_one x n s t p q l a = elim p.told_all [
      | inr z ↦ absurd (elim q.told_all [
        | inl w ↦ (let two = sym (a ∙ ap (λ ms. ms ++ n ∷ []) z) ∙ w in cc)
        | inr w ↦ (let two = sym (a ∙ ap (λ ms. ms ++ n ∷ []) z) ∙ w in cc)
      ])
      | inl z ↦ elim q.told_all [
        | inl w ↦ (let one = sym (a ∙ ap (λ ms. ms ++ n ∷ []) z) ∙ w in cc)
        | inr w ↦
            (let before = p.unannounced z in
              let after = q.announced_once w in
              elim (Bool-cases (loads x t.seen == items_of x sent)) [
                | inl full ↦ inr (before, after ∙ ground arith, ground arith)
                | inr more ↦ inl (after ∙ ground arith)
              ])
      ]
    ]

    track_loaded-Tracks :
        (s t : Pipeline) (status : StepStatus) (item : ObjectItem) (at : Option ℕ)
        → t.seen ≡ s.seen ++ loaded status item at ∷ []
        → ((x : ℕ) → 1 ≤ x → At x s)
        → ((x : ℕ) → 1 ≤ x → At x t)
        → Tracks (λ x. items_of x sent) (view s) (view t)
    track_loaded-Tracks s t status item at w p q =
        let m : Message = loaded status item at in
        let l : (x : ℕ) → loads x t.seen ≡ loads x s.seen + loads x (m ∷ []) =
          (λ x. ap (loads x) w ∙ loads-append x s.seen (m ∷ [])) in
        let a : (x : ℕ) → announcements x t.seen ≡ announcements x s.seen = (λ x.
          ap (announcements x) w
          ∙ announcements-append x s.seen (m ∷ [])
          ∙ append-nil (announcements x s.seen)) in
        elim (Bool-cases (item.cp == 0)) [
          | inl z ↦
              stay
                (λ x real. same_at x s t (p x real) (q x real) (let e = l x in ground arith) (a x))
          | inr z ↦
              (let real : 1 ≤ item.cp = ground arith in
                let e = l item.cp in
                let one : loads item.cp t.seen ≡ loads item.cp s.seen + 1 = ground arith in
                move item.cp
                  (λ x r o. same_at x s t (p x r) (q x r) (let f = l x in ground arith) (a x))
                  (inr one)
                  (loaded_one item.cp s t (p item.cp real) (q item.cp real) one (a item.cp))
                  (q item.cp real).fits)
        ]

    track_announced-Tracks :
        (s t : Pipeline) (cp n : ℕ)
        → t.seen ≡ s.seen ++ announced cp n ∷ []
        → ((x : ℕ) → 1 ≤ x → At x s)
        → ((x : ℕ) → 1 ≤ x → At x t)
        → Tracks (λ x. items_of x sent) (view s) (view t)
    track_announced-Tracks s t cp n w p q =
        let m : Message = announced cp n in
        let l : (x : ℕ) → loads x t.seen ≡ loads x s.seen =
          (λ x. ap (loads x) w ∙ loads-append x s.seen (m ∷ []) ∙ omega arith) in
        let a : (x : ℕ)
            → announcements x t.seen ≡ announcements x s.seen ++ announcements x (m ∷ []) =
          (λ x. ap (announcements x) w ∙ announcements-append x s.seen (m ∷ [])) in
        let other : (x : ℕ) → 1 ≤ x → (cp == x) ≡ false → SameAt x (view s) (view t) = (λ x r o.
          same_at x s t (p x r) (q x r) (l x) (
            a x
            ∙ ap (λ (b : Bool). announcements x s.seen ++ (if b then n ∷ [] else [])) o
            ∙ append-nil (announcements x s.seen))) in
        elim (Bool-cases (cp == 0)) [
          | inl z ↦ stay (λ x r. other x r (ground arith))
          | inr z ↦
              (let real : 1 ≤ cp = ground arith in
                let self : (cp == cp) ≡ true = ground arith in
                move cp other (inl (l cp))
                  (announced_one cp n s t (p cp real) (q cp real) (l cp) (
                    a cp
                    ∙ ap (λ (b : Bool). announcements cp s.seen ++ (if b then n ∷ [] else []))
                        self))
                  (q cp real).fits)
        ]

    -- A step of a pipeline over what a crawl sends is a step of the tracker of its checkpoints, if the
    -- crawl announces each checkpoint once at most and with the number of the items that it sends for
    -- it: whichever task or worker it is, whatever the RPC client and the database answer, and in
    -- whatever order the channels hand things on. In short: a checkpoint is saved once at most, and
    -- only after all its items have been loaded.
    pub Step-Tracks :
        (s t : Pipeline)
        → Reach types world (init sent control) s
        → Step types world s t
        → Tracks (λ x. items_of x sent) (view s) (view t)
    Step-Tracks s t r st =
        by_step st (λ x real. Reach-SavedAt types world sent control exact x s real r)
          (λ x real. Reach-SavedAt types world sent control exact x t real (next r st))
      where
        quiet : s.seen ≡ t.seen → Tracks (λ x. items_of x sent) (view s) (view t)
        quiet e = stay (λ x real. (
          ap (loads x) (sym e),
          ap (λ (ms : List Message). times x (or_start (run ms start)).saved) (sym e),
        ))

        by_step :
            Step types world s t
            → ((x : ℕ) → 1 ≤ x → At x s)
            → ((x : ℕ) → 1 ≤ x → At x t)
            → Tracks (λ x. items_of x sent) (view s) (view t)
        by_step (crawl_item i rest e d) p q = quiet (sym (ap (λ (v : Pipeline). v.seen) d))
        by_step (crawl_control m rest e d) p q = quiet (sym (ap (λ (v : Pipeline). v.seen) d))
        by_step (transform source chunk rest a k d) p q =
            quiet (sym (ap (λ (v : Pipeline). v.seen) d))
        by_step (write env chunk rest a k d) p q = quiet (sym (ap (λ (v : Pipeline). v.seen) d))
        by_step (track_loaded status item at rest u k e d) p q =
            track_loaded-Tracks s t status item at (ap (λ (v : Pipeline). v.seen) d) p q
        by_step (track_announced cp n rest u k e d) p q =
            track_announced-Tracks s t cp n (ap (λ (v : Pipeline). v.seen) d) p q
