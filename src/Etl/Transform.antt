-- ===== src/Etl/Transform.antt =====
-- main/src/etl.rs: `transform_batched`, and the object workers of `spawn_pipeline_tail` that run it.
-- The RPC client is given by its answers; `none` is an error. The chunks of the stream come as a list.
pub mod Balance
pub mod Loss
use huracan.Prelude.{
  ℕ, Bool, true, false, Option, none, some, List, [], ◌∷◌, ◌++◌, map, length, ◌==◌, if◌then◌else◌,
}
use huracan.Conf.{Whitelist, Blacklist}
use huracan.Client.Objects.{
  ObjectTypes, ObjectResponse, Parsed, indexed, dropped, panicked, parse_get_object_response,
}
use huracan.Etl.Types.{ObjectItem, StepStatus, ok, err}

-- `chunk.drain_filter(|o| o.deletion)`: what it yields, and what it leaves.
pub deletions : List ObjectItem → List ObjectItem
deletions [] = []
deletions (i ∷ is) = let rest = deletions is in if i.deletion then i ∷ rest else rest

pub changed : List ObjectItem → List ObjectItem
changed [] = []
changed (i ∷ is) = let rest = changed is in if i.deletion then rest else i ∷ rest

-- What the stream yields up to its end, or up to a panic.
pub record Yields : Type 0 where
  pub items : List (StepStatus × ObjectItem)
  pub panics : Bool

abbrev pub nothing : Yields
nothing = record { items = []; panics = false }

abbrev pub panic : Yields
panic = record { items = []; panics = true }

abbrev pub yield_item : StepStatus → ObjectItem → Yields
yield_item status item = record { items = (status, item) ∷ []; panics = false }

-- A panic leaves out what comes next.
abbrev pub and_then : Yields → Yields → Yields
and_then a b = if a.panics then a else record { items = a.items ++ b.items; panics = b.panics }

abbrev pub with_object : ObjectItem → Parsed → Yields
with_object item (indexed version bytes) =
    yield_item ok (record item { version = version; bytes = bytes })
with_object item dropped = nothing
with_object item panicked = panic

module _ (types : ObjectTypes) where
  -- The RPC client and the configuration.
  pub record Source : Type 0 where
    pub multi_get_object_with_options : List ℕ → Option (List (ObjectResponse types))
    pub get_object_with_options : ℕ → Option (ObjectResponse types)
    pub whitelist : Whitelist
    pub blacklist : Blacklist

  module _ (source : Source) where
    -- An item with the response for it.
    unfoldable pub take_response : ObjectItem → ObjectResponse types → Yields
    take_response item res =
        with_object item
          (parse_get_object_response types source.whitelist source.blacklist item.id res).1

    -- The loop over the zip.
    pub each_response : List ObjectItem → List (ObjectResponse types) → Yields
    unfolding take_response
    each_response (i ∷ is) (r ∷ rs) = and_then (take_response i r) (each_response is rs)
    each_response is rs = nothing

    -- The loop after the common request has failed.
    pub one_by_one : List ObjectItem → Yields
    unfolding take_response
    one_by_one [] = nothing
    one_by_one (i ∷ is) =
        and_then
          (elim (source.get_object_with_options i.id) [
            | none ↦ yield_item err i
            | some res ↦ take_response i res
          ])
          (one_by_one is)

    -- What is done with the answer to the common request.
    pub use_answer : List ObjectItem → Option (List (ObjectResponse types)) → Yields
    unfolding each_response one_by_one
    use_answer chunk none = one_by_one chunk
    use_answer chunk (some objs) =
        if length objs == length chunk then each_response chunk objs else panic

    pub fetch : List ObjectItem → Yields
    unfolding use_answer
    fetch chunk = use_answer chunk (source.multi_get_object_with_options (map (λ i. i.id) chunk))

    unfoldable pub transform_chunk : List ObjectItem → Yields
    unfolding deletions changed fetch
    transform_chunk chunk =
        and_then (record { items = map (λ i. (ok, i)) (deletions chunk); panics = false })
          (fetch (changed chunk))

    unfoldable pub transform_batched : List (List ObjectItem) → Yields
    unfolding transform_chunk
    transform_batched [] = nothing
    transform_batched (c ∷ cs) = and_then (transform_chunk c) (transform_batched cs)

-- The worker: failed items go to Pulsar for a retry, the others to the mongo workers.
unfoldable pub to_retries : List (StepStatus × ObjectItem) → List ObjectItem
to_retries [] = []
to_retries ((ok, i) ∷ is) = to_retries is
to_retries ((err, i) ∷ is) = i ∷ to_retries is

unfoldable pub to_mongo : List (StepStatus × ObjectItem) → List ObjectItem
to_mongo [] = []
to_mongo ((ok, i) ∷ is) = i ∷ to_mongo is
to_mongo ((err, i) ∷ is) = to_mongo is
