-- ===== src/Etl/Pipeline.antt =====
-- main/src/etl.rs: how `spawn_pipeline_tail` connects the crawl, the object workers, the mongo workers
-- and the last task by channels. Tasks and workers take turns in any order: a step relation. A worker
-- takes any items of its channel as a chunk, since others take from it too. The messages that the last
-- task has handled are kept, and its state is `run` of them.
pub mod Counts
pub mod Tracker
pub mod Saved
pub mod Refinement
pub mod Complete
use huracan.Prelude.{ℕ, ◌≡◌, Option, some, List, [], ◌∷◌, ◌++◌, map}
use huracan.Client.Objects.{ObjectTypes}
use huracan.Etl.Types.{ObjectItem, StepStatus}
use huracan.Etl.Transform.{Source, Yields, transform_chunk, to_retries, to_mongo}
use huracan.Etl.Load.{Load, Result, Env, load_chunk}
use huracan.Etl.Tail.{Message, loaded, announced, Tail, start, run}

pub record Pipeline : Type 0 where
  -- What the crawl has yet to send on its two channels, in order.
  pub unsent : List ObjectItem
  pub untold : List (ℕ × ℕ)
  -- The channels.
  pub object_ids : List ObjectItem
  pub mongo : List ObjectItem
  pub last : List (StepStatus × ObjectItem × Option ℕ)
  pub cp_control : List (ℕ × ℕ)
  -- What the object workers have sent to Pulsar.
  pub retries : List ObjectItem
  pub seen : List Message

-- A pipeline over what a crawl sends.
abbrev pub init : List (Option ℕ × ObjectItem) → List (ℕ × ℕ) → Pipeline
init sent control = record {
  unsent = map (λ (p : Option ℕ × ObjectItem). p.1) sent;
  untold = control;
  object_ids = [];
  mongo = [];
  last = [];
  cp_control = [];
  retries = [];
  seen = [];
}

-- The first list is taken out of the last, and the second is what stays.
pub data Takes {ℓ} {A : Type ℓ} : List A → List A → List A → Type ℓ where
  done : Takes [] [] []
  take : {xs ys zs : List A} (x : A) → Takes xs ys zs → Takes (x ∷ xs) ys (x ∷ zs)
  leave : {xs ys zs : List A} (x : A) → Takes xs ys zs → Takes xs (x ∷ ys) (x ∷ zs)

-- A mongo worker before its chunk.
abbrev pub idle : Load
idle = record { commands = []; loaded = []; counts = []; write_errors = 0 }

abbrev pub send_item : ObjectItem → List ObjectItem → Pipeline → Pipeline
send_item i rest s = record s { unsent = rest; object_ids = s.object_ids ++ i ∷ [] }

abbrev pub send_control : ℕ × ℕ → List (ℕ × ℕ) → Pipeline → Pipeline
send_control m rest s = record s { untold = rest; cp_control = s.cp_control ++ m ∷ [] }

-- What an object worker passes on for its chunk: all, or what it yields up to a panic.
abbrev pub pass_objects : Yields → List ObjectItem → Pipeline → Pipeline
pass_objects y rest s = record s {
  object_ids = rest;
  mongo = s.mongo ++ to_mongo y.items;
  retries = s.retries ++ to_retries y.items;
}

-- What a mongo worker passes on for its chunk: all, or nothing if it panics.
abbrev pub pass_loaded : Load × Result → List ObjectItem → Pipeline → Pipeline
pass_loaded r rest s = record s { mongo = rest; last = s.last ++ r.0.loaded }

abbrev pub handle_loaded : Message → List (StepStatus × ObjectItem × Option ℕ) → Pipeline → Pipeline
handle_loaded m rest s = record s { last = rest; seen = s.seen ++ m ∷ [] }

abbrev pub handle_announced : Message → List (ℕ × ℕ) → Pipeline → Pipeline
handle_announced m rest s = record s { cp_control = rest; seen = s.seen ++ m ∷ [] }

-- The answers of the RPC client that may occur, and the results of mongo workers.
pub record World (types : ObjectTypes) : Type 1 where
  pub Answers : Source types → Type 0
  pub Ends : Result → Type 0

module _ (types : ObjectTypes) (world : World types) where
  pub data Step (s t : Pipeline) : Type 0 where
    crawl_item :
        (i : ObjectItem) (rest : List ObjectItem)
        → s.unsent ≡ i ∷ rest
        → t ≡ send_item i rest s
        → Step s t
    crawl_control :
        (m : ℕ × ℕ) (rest : List (ℕ × ℕ))
        → s.untold ≡ m ∷ rest
        → t ≡ send_control m rest s
        → Step s t
    transform :
        (source : Source types) (chunk rest : List ObjectItem)
        → world.Answers source
        → Takes chunk rest s.object_ids
        → t ≡ pass_objects (transform_chunk types source chunk) rest s
        → Step s t
    write :
        (env : Env) (chunk rest : List ObjectItem)
        → world.Ends (load_chunk env chunk env.retries idle).1
        → Takes chunk rest s.mongo
        → t ≡ pass_loaded (load_chunk env chunk env.retries idle) rest s
        → Step s t
    -- The last task does not panic on the message.
    track_loaded :
        (status : StepStatus) (item : ObjectItem) (at : Option ℕ)
        (rest : List (StepStatus × ObjectItem × Option ℕ)) (u : Tail)
        → Takes ((status, item, at) ∷ []) rest s.last
        → run (s.seen ++ loaded status item at ∷ []) start ≡ some u
        → t ≡ handle_loaded (loaded status item at) rest s
        → Step s t
    track_announced :
        (cp n : ℕ) (rest : List (ℕ × ℕ)) (u : Tail)
        → s.cp_control ≡ (cp, n) ∷ rest
        → run (s.seen ++ announced cp n ∷ []) start ≡ some u
        → t ≡ handle_announced (announced cp n) rest s
        → Step s t

  pub data Reach (s : Pipeline) : Pipeline → Type 0 where
    here : Reach s s
    next : {t u : Pipeline} → Reach s t → Step t u → Reach s u
