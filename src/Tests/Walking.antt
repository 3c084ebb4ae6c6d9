-- ===== src/Tests/Walking.antt =====
-- A move of the walk over a completed range.
use huracan.Prelude.{◌≤◌, ◌≡◌, refl, inl, none, some, [], ◌∷◌, arith}
use huracan.Etl.Types.{page, failed}
use huracan.Etl.Scan.{Env, emit_block}
use huracan.Etl.Scan.Flow.{IsFlowing}
use huracan.Etl.Walk.Crawl.{out_of_fuel, do_walk}
use huracan.Etl.Walk.Crawl.Endless.{queries_by, do_walk_unending}
use huracan.Tests.Samples.{list_store, last_page, sample_env, fresh}
use huracan.Etl.Walk.{Walk, traverse_checkpoints}
use huracan.Etl.Walk.Moves.{Passes, traverse_checkpoints-Passes}

abbrev walk : Walk
walk = record { cp = 21; ranges = (20, 15) ∷ (9, 0) ∷ []; num_objects = 2; control = [] }

moves_over : (traverse_checkpoints 20 walk).1.cp ≡ 14
unfolding traverse_checkpoints
moves_over = refl

traverse_checkpoints-Passes_example :
    let r = traverse_checkpoints 20 walk in
    Passes 20 walk.ranges r.0 r.1.cp r.1.ranges × (20 ≤ 21 → r.1.control ≡ [])
traverse_checkpoints-Passes_example =
    traverse_checkpoints-Passes 20 walk (omega arith, (omega arith, omega arith, tt))

-- Each query answers with its own checkpoint.
abbrev same_answers : Env
same_answers = record sample_env { responses = λ round. page 1000 (last_page 20) ∷ [] }

same_answers-IsFlowing : IsFlowing same_answers
same_answers-IsFlowing = record {
  unstopped = λ cp. refl;
  items = λ k. refl;
  controls = λ k. refl;
  answers = λ cp. inl (inl refl);
}

do_walk_unending_example :
    let r = do_walk list_store same_answers 50 20 ((9, 0) ∷ []) fresh in
    (r.1 ≡ out_of_fuel) × (r.0.cp ≡ 20) × (queries_by 20 r.0.queries ≡ 50)
do_walk_unending_example =
    do_walk_unending list_store same_answers 50 20 ((9, 0) ∷ []) fresh same_answers-IsFlowing
      (λ round. ((refl, tt), tt)) (omega arith) refl

-- When the first query fails, the next one has neither a checkpoint nor a cursor.
abbrev failing : Env
failing = record sample_env { responses = λ round. failed ∷ page 1000 (last_page 20) ∷ [] }

second_query_is_unbounded :
    (do_walk list_store failing 1 20 [] fresh).0.queries ≡ (some 20, none) ∷ (none, none) ∷ []
unfolding do_walk emit_block traverse_checkpoints
second_query_is_unbounded = refl
