-- ===== src/Etl/Pipeline/Counts.antt =====
-- How many items of a checkpoint are where in a pipeline.
use huracan.Prelude.{
  append-nil, append_assoc, ℕ, ◌+◌, ◌≤◌, ◌≡◌, refl, sym, ◌∙◌, ap, Option, List, [], ◌∷◌, ◌++◌, map,
  arith,
}
use huracan.Client.Objects.{ObjectTypes}
use huracan.Etl.Types.{ObjectItem, StepStatus, ok, err}
use huracan.Etl.Scan.Counts.{items_of}
use huracan.Etl.Scan.Ledger.{told, told-append}
use huracan.Etl.Transform.{transform_chunk, to_retries, to_mongo}
use huracan.Etl.Transform.Balance.{items_for, yields_for, transform_chunk_le}
use huracan.Etl.Load.{Load, Result, written, panicked, Env, load_chunk}
use huracan.Etl.Load.Chunks as Chunks
use huracan.Etl.Load.Chunks.{item_of, load_chunk-WholeChunk}
use huracan.Etl.Tail.{Message, loaded, announced}
use huracan.Etl.Tail.Balance.{loads, announcements}
use huracan.Etl.Pipeline.{
  Pipeline, init, Takes, done, take, leave, idle, World, Step, crawl_item, crawl_control, transform,
  write, track_loaded, track_announced, Reach, here, next,
}

pub items_for-append :
    (x : ℕ) (is js : List ObjectItem) → items_for x (is ++ js) ≡ items_for x is + items_for x js
items_for-append x [] js = omega arith
items_for-append x (i ∷ is) js = omega (arith, items_for-append x is js)

-- The loaded items of a checkpoint.
abbrev pub loaded_for : ℕ → List (StepStatus × ObjectItem × Option ℕ) → ℕ
loaded_for x ls = items_for x (map item_of ls)

pub loaded_for-append :
    (x : ℕ) (ls ms : List (StepStatus × ObjectItem × Option ℕ))
    → loaded_for x (ls ++ ms) ≡ loaded_for x ls + loaded_for x ms
loaded_for-append x [] ms = omega arith
loaded_for-append x ((s, i, t) ∷ ls) ms = omega (arith, loaded_for-append x ls ms)

pub items_for-Takes :
    (x : ℕ) {is js ks : List ObjectItem}
    → Takes is js ks
    → items_for x ks ≡ items_for x is + items_for x js
items_for-Takes x done = refl
items_for-Takes x (take i t) = omega (arith, items_for-Takes x t)
items_for-Takes x (leave i t) = omega (arith, items_for-Takes x t)

pub loaded_for-Takes :
    (x : ℕ) {is js ks : List (StepStatus × ObjectItem × Option ℕ)}
    → Takes is js ks
    → loaded_for x ks ≡ loaded_for x is + loaded_for x js
loaded_for-Takes x done = refl
loaded_for-Takes x (take (s, i, at) t) = omega (arith, loaded_for-Takes x t)
loaded_for-Takes x (leave (s, i, at) t) = omega (arith, loaded_for-Takes x t)

-- An object worker splits what it yields.
pub yields_for-split :
    (x : ℕ) (ys : List (StepStatus × ObjectItem))
    → items_for x (to_mongo ys) + items_for x (to_retries ys) ≡ yields_for x ys
unfolding to_mongo to_retries
yields_for-split x [] = refl
yields_for-split x ((ok, i) ∷ ys) = omega (arith, yields_for-split x ys)
yields_for-split x ((err, i) ∷ ys) = omega (arith, yields_for-split x ys)

pub items_for-sent :
    (x : ℕ) (sent : List (Option ℕ × ObjectItem))
    → items_for x (init sent []).unsent ≡ items_of x sent
items_for-sent x [] = refl
items_for-sent x ((d, i) ∷ sent) = omega (arith, items_for-sent x sent)

pub loads-append : (x : ℕ) (ms ns : List Message) → loads x (ms ++ ns) ≡ loads x ms + loads x ns
loads-append x [] ns = omega arith
loads-append x (loaded s i t ∷ ms) ns = omega (arith, loads-append x ms ns)
loads-append x (announced j n ∷ ms) ns = loads-append x ms ns

pub announcements-append :
    (x : ℕ) (ms ns : List Message)
    → announcements x (ms ++ ns) ≡ announcements x ms ++ announcements x ns
announcements-append x [] ns = refl
announcements-append x (loaded s i t ∷ ms) ns = announcements-append x ms ns
announcements-append x (announced j n ∷ ms) ns = ground (arith, announcements-append x ms ns)

-- The items of a checkpoint in the pipeline that are not loaded yet.
abbrev pub in_flight : ℕ → Pipeline → ℕ
in_flight x s =
    items_for x s.unsent
    + items_for x s.object_ids
    + items_for x s.mongo
    + items_for x s.retries
    + loaded_for x s.last

-- The announcements handled, waiting, and to come.
abbrev pub all_told : ℕ → Pipeline → List ℕ
all_told x s = announcements x s.seen ++ (told x s.cp_control ++ told x s.untold)

-- A step brings in no item and no announcement.
pub record Conserves (x : ℕ) (s t : Pipeline) : Type 0 where
  pub less : in_flight x t + loads x t.seen ≤ in_flight x s + loads x s.seen
  pub same_told : all_told x t ≡ all_told x s

loaded_for-load_chunk :
    (x : ℕ) (env : Env) (chunk : List ObjectItem)
    → loaded_for x (load_chunk env chunk env.retries idle).0.loaded ≤ items_for x chunk
loaded_for-load_chunk x env chunk =
    by_result (load_chunk env chunk env.retries idle)
      (load_chunk-WholeChunk env chunk env.retries idle idle refl)
  where
    by_result :
        (r : Load × Result)
        → Chunks.WholeChunk chunk idle r
        → loaded_for x r.0.loaded ≤ items_for x chunk
    by_result (m, written) h = rw h (omega arith)
    by_result (m, panicked) h = rw h (omega arith)

told_last :
    (x : ℕ) (m : ℕ × ℕ) (q rest : List (ℕ × ℕ))
    → told x (q ++ m ∷ []) ++ told x rest ≡ told x q ++ told x (m ∷ rest)
told_last x (cp, n) q rest =
    ap (λ z. z ++ told x rest) (told-append x q ((cp, n) ∷ []))
    ∙ append_assoc (told x q) (told x ((cp, n) ∷ [])) (told x rest)
    ∙ ap (λ z. told x q ++ z) (sym (told-append x ((cp, n) ∷ []) rest))

told_first :
    (x cp n : ℕ) (rest : List (ℕ × ℕ)) (ns : List ℕ)
    → announcements x (announced cp n ∷ []) ++ (told x rest ++ ns) ≡ told x ((cp, n) ∷ rest) ++ ns
told_first x cp n rest ns = ground arith

module _ (x : ℕ) (types : ObjectTypes) (world : World types) where
  pub Step-Conserves : (s t : Pipeline) → 1 ≤ x → Step types world s t → Conserves x s t
  Step-Conserves s t real (crawl_item i rest e d) = rw d (record {
    less = omega (arith, ap (items_for x) e, items_for-append x s.object_ids (i ∷ []));
    same_told = refl;
  })
  Step-Conserves s t real (crawl_control m rest e d) = rw d (record {
    less = omega arith;
    same_told =
        ap (λ z. announcements x s.seen ++ z) (told_last x m s.cp_control rest)
        ∙ ap (λ z. announcements x s.seen ++ (told x s.cp_control ++ told x z)) (sym e);
  })
  Step-Conserves s t real (transform source chunk rest a k d) =
      let ys = (transform_chunk types source chunk).items in
      rw d (record {
        less = omega (
          arith,
          items_for-Takes x k,
          items_for-append x s.mongo (to_mongo ys),
          items_for-append x s.retries (to_retries ys),
          yields_for-split x ys,
          transform_chunk_le types source x chunk,
        );
        same_told = refl;
      })
  Step-Conserves s t real (write env chunk rest a k d) =
      let ls = (load_chunk env chunk env.retries idle).0.loaded in
      rw d (record {
        less = omega (
          arith,
          items_for-Takes x k,
          loaded_for-append x s.last ls,
          loaded_for-load_chunk x env chunk,
        );
        same_told = refl;
      })
  Step-Conserves s t real (track_loaded status item at rest u k r d) = rw d (record {
    less = ground (arith, loaded_for-Takes x k, loads-append x s.seen (loaded status item at ∷ []));
    same_told =
        ap (λ z. z ++ (told x s.cp_control ++ told x s.untold))
          (announcements-append x s.seen (loaded status item at ∷ []) ∙ append-nil _);
  })
  Step-Conserves s t real (track_announced cp n rest u e r d) = rw d (record {
    less = omega (arith, loads-append x s.seen (announced cp n ∷ []));
    same_told =
        ap (λ z. z ++ (told x rest ++ told x s.untold))
          (announcements-append x s.seen (announced cp n ∷ []))
        ∙ append_assoc (announcements x s.seen) (announcements x (announced cp n ∷ []))
            (told x rest ++ told x s.untold)
        ∙ ap (λ z. announcements x s.seen ++ z)
            (told_first x cp n rest (told x s.untold)
              ∙ ap (λ z. told x z ++ told x s.untold) (sym e));
  })

  pub Reach-Conserves : (s t : Pipeline) → 1 ≤ x → Reach types world s t → Conserves x s t
  Reach-Conserves s t real here = record { less = omega arith; same_told = refl }
  Reach-Conserves s t real (next {t = u} r st) =
      let p = Reach-Conserves s u real r in
      let q = Step-Conserves u t real st in
      record { less = omega (arith, p.less, q.less); same_told = q.same_told ∙ p.same_told }

-- In a pipeline over what a crawl sends, at most as many items of a checkpoint are loaded as were
-- sent for it, and it is announced as often as the crawl does.
pub Reach-init :
    (x : ℕ) (types : ObjectTypes) (world : World types) (sent : List (Option ℕ × ObjectItem))
    (control : List (ℕ × ℕ)) (s : Pipeline)
    → 1 ≤ x
    → Reach types world (init sent control) s
    → (in_flight x s + loads x s.seen ≤ items_of x sent) × (all_told x s ≡ told x control)
Reach-init x types world sent control s real r =
    let p = Reach-Conserves x types world (init sent control) s real r in
    (omega (arith, p.less, items_for-sent x sent), p.same_told)
