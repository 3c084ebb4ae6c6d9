-- ===== src/Tests/Stages.antt =====
-- Object workers and mongo workers on concrete chunks.
use huracan.Prelude.{
  ℕ, ◌≡◌, refl, true, false, none, some, List, [], ◌∷◌, ltb, if◌then◌else◌, map, arith,
}
use huracan.Client.Objects.{parse_get_object_response, check_obj_type_from_string_vec}
use huracan.Etl.Types.{ObjectItem, livescan}
use huracan.Etl.Transform.{Source, transform_batched}
use huracan.Etl.Transform.Balance.{total_for}
use huracan.Etl.Transform.Loss.{AnswersAll, AreUsable, IsUsable, Keeps, transform_batched-Keeps}
use huracan.Etl.Load.{Load, Env, done, failed, panicked, load_chunk, load_batched}
use huracan.Etl.Load.Chunks.{WholeChunks, Writes, load_batched-WholeChunks, load_chunk-written}
use huracan.Tests.Rpc.{sample_types, coin_response, coins_only, nothing_barred}

abbrev item : ℕ → ObjectItem
item id = record {
  cp = 4;
  deletion = false;
  id = id;
  version = 1;
  ts_sui = some 5;
  ts_first_seen = 10;
  ingested_via = livescan;
  bytes = [];
}

abbrev chunks : List (List ObjectItem)
chunks = (item 1 ∷ record (item 2) { deletion = true } ∷ []) ∷ (item 3 ∷ []) ∷ []

-- Each object is the same coin; requests for single objects fail.
abbrev pub source : Source sample_types
source = record {
  multi_get_object_with_options = λ ids. some (map (λ id. coin_response) ids);
  get_object_with_options = λ id. none;
  whitelist = coins_only;
  blacklist = nothing_barred;
}

coin_IsUsable : (id : ℕ) → IsUsable sample_types source id coin_response
unfolding parse_get_object_response check_obj_type_from_string_vec
coin_IsUsable id = (3, 8 ∷ 9 ∷ [], refl)

all_usable : (ids : List ℕ) → AreUsable sample_types source ids (map (λ id. coin_response) ids)
all_usable [] = tt
all_usable (id ∷ ids) = (coin_IsUsable id, all_usable ids)

pub source-AnswersAll : AnswersAll sample_types source
source-AnswersAll = record {
  in_common = λ ids rs e.
      let same : map (λ id. coin_response) ids ≡ rs = ground arith in rw (← same) (all_usable ids);
  alone = λ id r e. cc;
}

transform_batched-Keeps_example :
    Keeps (λ x. total_for x chunks) (transform_batched sample_types source chunks)
transform_batched-Keeps_example =
    transform_batched-Keeps sample_types source source-AnswersAll chunks

-- The first command fails.
abbrev pub database : Env
database = record {
  answer = λ k. if ltb 0 k then done 2 (some 1) 1 else failed;
  now = λ k. 77;
  tracklatency = true;
  retries = 3;
}

abbrev empty : Load
empty = record { commands = []; loaded = []; counts = []; write_errors = 0 }

abbrev two : List ObjectItem
two = item 1 ∷ item 2 ∷ []

load_batched-WholeChunks_example :
    WholeChunks
      (two ∷ (item 3 ∷ []) ∷ [])
      empty
      (load_batched database (two ∷ (item 3 ∷ []) ∷ []) empty)
load_batched-WholeChunks_example =
    load_batched-WholeChunks database (two ∷ (item 3 ∷ []) ∷ []) empty

load_chunk-written_example : Writes database empty 1 (load_chunk database two 3 empty)
load_chunk-written_example =
    load_chunk-written database two 1 3 empty (some 1) 1 (omega arith) (λ j h. ground arith) refl

second_chunk_panics : (load_batched database (two ∷ (item 3 ∷ []) ∷ []) empty).1 ≡ panicked
unfolding load_batched
second_chunk_panics = refl
