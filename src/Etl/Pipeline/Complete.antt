-- ===== src/Etl/Pipeline/Complete.antt =====
-- When a pipeline has saved all that its crawl announced.
use huracan.Prelude.{
  inr, append-nil, ℕ, ◌+◌, ◌≤◌, ◌≡◌, refl, sym, ◌∙◌, ap, Option, List, [], ◌∷◌, ◌++◌, arith,
}
use huracan.Client.Objects.{ObjectTypes}
use huracan.Etl.Types.{ObjectItem}
use huracan.Etl.Scan.Counts.{items_of}
use huracan.Etl.Scan.Ledger.{told}
use huracan.Etl.Transform.{Source, transform_chunk, to_mongo, to_retries}
use huracan.Etl.Transform.Balance.{items_for}
use huracan.Etl.Transform.Loss.{AnswersAll, transform_chunk-Keeps}
use huracan.Etl.Load.{Load, Result, written, panicked, Env, load_chunk}
use huracan.Etl.Load.Chunks.{WholeChunk, load_chunk-WholeChunk}
use huracan.Etl.Tail.{loaded, announced}
use huracan.Etl.Tail.Balance.{loads, announcements}
use huracan.Etl.Tail.Saved.{times}
use huracan.Etl.Pipeline.{
  Pipeline, init, idle, World, Step, crawl_item, crawl_control, transform, write, track_loaded,
  track_announced, Reach, here, next,
}
use huracan.Etl.Pipeline.Counts.{
  items_for-append, loaded_for, loaded_for-append, items_for-Takes, loaded_for-Takes,
  yields_for-split, loads-append, in_flight, Reach-init, items_for-sent,
}
use huracan.Etl.Pipeline.Saved.{tail_of, Reach-SavedAt_one}

-- Each answer of the RPC client is usable, and no mongo worker panics.
pub record IsLossless (types : ObjectTypes) (world : World types) : Type 1 where
  pub usable : (source : Source types) → world.Answers source → AnswersAll types source
  pub calm : (r : Result) → world.Ends r → r ≡ written

-- All channels are empty, and the crawl has sent all.
pub record IsDrained (s : Pipeline) : Type 0 where
  pub no_unsent : s.unsent ≡ []
  pub no_untold : s.untold ≡ []
  pub no_object_ids : s.object_ids ≡ []
  pub no_mongo : s.mongo ≡ []
  pub no_last : s.last ≡ []
  pub no_cp_control : s.cp_control ≡ []

load_chunk_all :
    (x : ℕ) (env : Env) (chunk : List ObjectItem)
    → (load_chunk env chunk env.retries idle).1 ≡ written
    → loaded_for x (load_chunk env chunk env.retries idle).0.loaded ≡ items_for x chunk
load_chunk_all x env chunk =
    by_result (load_chunk env chunk env.retries idle)
      (load_chunk-WholeChunk env chunk env.retries idle idle refl)
  where
    by_result :
        (r : Load × Result)
        → WholeChunk chunk idle r
        → r.1 ≡ written
        → loaded_for x r.0.loaded ≡ items_for x chunk
    by_result (m, written) h e = rw h refl
    by_result (m, panicked) h e = cc

module _ (types : ObjectTypes) (world : World types) (lossless : IsLossless types world) where
  module _ (x : ℕ) (real : 1 ≤ x) where
    Step-keeps :
        (s t : Pipeline)
        → Step types world s t
        → in_flight x s + loads x s.seen ≤ in_flight x t + loads x t.seen
    Step-keeps s t (crawl_item i rest e d) =
        rw d (omega (arith, ap (items_for x) e, items_for-append x s.object_ids (i ∷ [])))
    Step-keeps s t (crawl_control m rest e d) = rw d (omega arith)
    Step-keeps s t (transform source chunk rest a k d) =
        let ys = (transform_chunk types source chunk).items in
        let all = (transform_chunk-Keeps types source (lossless.usable source a) chunk).all_out x in
        rw d (
          omega (
            arith,
            items_for-Takes x k,
            items_for-append x s.mongo (to_mongo ys),
            items_for-append x s.retries (to_retries ys),
            yields_for-split x ys,
            all,
          ))
    Step-keeps s t (write env chunk rest a k d) =
        let r = load_chunk env chunk env.retries idle in
        rw d (
          omega (
            arith,
            items_for-Takes x k,
            loaded_for-append x s.last r.0.loaded,
            load_chunk_all x env chunk (lossless.calm r.1 a),
          ))
    Step-keeps s t (track_loaded status item at rest u k r d) =
        rw d
          (ground (arith, loaded_for-Takes x k, loads-append x s.seen (loaded status item at ∷ [])))
    Step-keeps s t (track_announced cp n rest u e r d) =
        rw d (omega (arith, loads-append x s.seen (announced cp n ∷ [])))

    Reach-keeps :
        (s t : Pipeline)
        → Reach types world s t
        → in_flight x s + loads x s.seen ≤ in_flight x t + loads x t.seen
    Reach-keeps s t here = omega arith
    Reach-keeps s t (next {t = u} r st) = omega (arith, Reach-keeps s u r, Step-keeps u t st)

  -- Where the RPC client answers each request that does not fail with a usable response for each
  -- object, and no mongo worker panics: once the channels of a pipeline over what a crawl sends are
  -- empty, each checkpoint that the crawl announced, with the number of the items that it sent for it,
  -- is saved exactly once, if none of its items was put back for a retry.
  pub drained-saved :
      (sent : List (Option ℕ × ObjectItem)) (control : List (ℕ × ℕ)) (x : ℕ) (s : Pipeline)
      → 1 ≤ x
      → told x control ≡ items_of x sent ∷ []
      → Reach types world (init sent control) s
      → IsDrained s
      → items_for x s.retries ≡ 0
      → times x (tail_of s).saved ≡ 1
  drained-saved sent control x s real told_once r dry retried =
      let at = Reach-SavedAt_one types world sent control x s real (inr told_once) r in
      let (less, same) = Reach-init x types world sent control s real r in
      let more = Reach-keeps x real (init sent control) s r in
      let none_left : in_flight x s ≡ 0 = omega (
        arith,
        ap (items_for x) dry.no_unsent,
        ap (items_for x) dry.no_object_ids,
        ap (items_for x) dry.no_mongo,
        ap (loaded_for x) dry.no_last,
        retried,
      ) in
      let full : loads x s.seen ≡ items_of x sent =
        omega (arith, less, more, items_for-sent x sent) in
      let quiet : told x s.cp_control ++ told x s.untold ≡ [] =
        (let p = ap (told x) dry.no_cp_control in
          let q = ap (told x) dry.no_untold in rw (p, q) refl) in
      let all : announcements x s.seen ≡ items_of x sent ∷ [] =
        sym (append-nil (announcements x s.seen))
        ∙ ap (λ z. announcements x s.seen ++ z) (sym quiet)
        ∙ same
        ∙ told_once in
      at.announced_once all ∙ ground arith
