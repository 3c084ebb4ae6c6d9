-- ===== src/Etl/Pipeline/Saved.antt =====
-- When the last task of a pipeline has saved a checkpoint.
use huracan.Prelude.{
  ℕ, ◌≤◌, ◌≡◌, refl, ◌∙◌, ap, ◌⊎◌, inl, inr, Option, none, some, List, [], ◌∷◌, ◌++◌, ◌==◌,
  if◌then◌else◌, arith,
}
use huracan.Client.Objects.{ObjectTypes}
use huracan.Etl.Types.{ObjectItem}
use huracan.Etl.Scan.Counts.{items_of}
use huracan.Etl.Scan.Ledger.{told}
use huracan.Etl.Tail.{Tail, start, run}
use huracan.Etl.Tail.Balance.{loads, announcements}
use huracan.Etl.Tail.Saved.{times, times-saved, unannounced-saved}
use huracan.Etl.Pipeline.{
  Pipeline, init, World, crawl_item, crawl_control, transform, write, track_loaded, track_announced,
  Reach, here, next,
}
use huracan.Etl.Pipeline.Counts.{Reach-init}
use huracan.Etl.Pipeline.Tracker.{Tracker}

-- The state of the last task.
abbrev pub or_start : Option Tail → Tail
or_start none = start
or_start (some u) = u

abbrev pub tail_of : Pipeline → Tail
tail_of s = or_start (run s.seen start)

abbrev pub view : Pipeline → Tracker
view s = record { loaded = λ x. loads x s.seen; saved = λ x. times x (tail_of s).saved }

-- A crawl announces a checkpoint once at most, and with the number of items sent for it.
abbrev pub IsExact : List (Option ℕ × ObjectItem) → List (ℕ × ℕ) → Type 0
IsExact sent control =
    (x : ℕ) → 1 ≤ x → (told x control ≡ []) ⊎ (told x control ≡ items_of x sent ∷ [])

module _ (types : ObjectTypes) (world : World types) (sent : List (Option ℕ × ObjectItem))
    (control : List (ℕ × ℕ)) where
  Reach-run :
      (s : Pipeline)
      → Reach types world (init sent control) s
      → (u : Tail) × (run s.seen start ≡ some u)
  unfolding run
  Reach-run s here = (start, refl)
  Reach-run s (next {t = t} r (crawl_item i rest e d)) = rw d (Reach-run t r)
  Reach-run s (next {t = t} r (crawl_control m rest e d)) = rw d (Reach-run t r)
  Reach-run s (next {t = t} r (transform source chunk rest a k d)) = rw d (Reach-run t r)
  Reach-run s (next {t = t} r (write env chunk rest a k d)) = rw d (Reach-run t r)
  Reach-run s (next {t = t} r (track_loaded status item at rest u k e d)) = rw d (u, e)
  Reach-run s (next {t = t} r (track_announced cp n rest u k e d)) = rw d (u, e)

  first_of_one : (ms ns : List ℕ) (n : ℕ) → ms ++ ns ≡ n ∷ [] → (ms ≡ []) ⊎ (ms ≡ n ∷ [])
  first_of_one [] ns n e = inl refl
  first_of_one (a ∷ []) ns n e = inr (ground arith)
  first_of_one (a ∷ b ∷ ms) ns n e = cc

  first_of_none : (ms ns : List ℕ) → ms ++ ns ≡ [] → ms ≡ []
  first_of_none [] ns e = refl
  first_of_none (a ∷ ms) ns e = cc

  -- What is saved, by what was announced and loaded.
  pub record SavedAt (x : ℕ) (s : Pipeline) : Type 0 where
    pub fits : loads x s.seen ≤ items_of x sent
    pub told_all : (announcements x s.seen ≡ []) ⊎ (announcements x s.seen ≡ items_of x sent ∷ [])
    pub unannounced : announcements x s.seen ≡ [] → times x (tail_of s).saved ≡ 0
    pub announced_once :
        announcements x s.seen ≡ items_of x sent ∷ []
        → times x (tail_of s).saved ≡ (if loads x s.seen == items_of x sent then 1 else 0)

  -- Of one checkpoint, whatever is announced and sent for others.
  pub Reach-SavedAt_one :
      (x : ℕ) (s : Pipeline)
      → 1 ≤ x
      → (told x control ≡ []) ⊎ (told x control ≡ items_of x sent ∷ [])
      → Reach types world (init sent control) s
      → SavedAt x s
  Reach-SavedAt_one x s real exact r =
      let (less, same) = Reach-init x types world sent control s real r in
      let (u, e) = Reach-run s r in
      let t : tail_of s ≡ u = ap or_start e in
      let fits : loads x s.seen ≤ items_of x sent = omega (arith, less) in
      record {
        fits = fits;
        told_all = elim exact [
          | inl z ↦ inl (first_of_none (announcements x s.seen) _ (same ∙ z))
          | inr z ↦ first_of_one (announcements x s.seen) _ (items_of x sent) (same ∙ z)
        ];
        unannounced =
            λ a. ap (λ (v : Tail). times x v.saved) t ∙ unannounced-saved x s.seen u real e a;
        announced_once = λ a.
            ap (λ (v : Tail). times x v.saved) t
            ∙ times-saved x (items_of x sent) real s.seen u e a fits;
      }

  pub Reach-SavedAt :
      IsExact sent control
      → (x : ℕ) (s : Pipeline) → 1 ≤ x
      → Reach types world (init sent control) s
      → SavedAt x s
  Reach-SavedAt exact x s real r = Reach-SavedAt_one x s real (exact x real) r
