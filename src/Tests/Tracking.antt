-- ===== src/Tests/Tracking.antt =====
-- The last task of a pipeline on concrete messages.
use huracan.Prelude.{ℕ, ◌≡◌, refl, none, some, List, [], ◌∷◌, false, arith}
use huracan.Etl.Types.{ObjectItem, livescan, ok}
use huracan.Etl.Tail.{Message, Tail, loaded, announced, start, run}
use huracan.Etl.Tail.Saved.{times, times-saved}

abbrev item : ℕ → ObjectItem
item cp = record {
  cp = cp;
  deletion = false;
  id = 1;
  version = 1;
  ts_sui = some 5;
  ts_first_seen = 10;
  ingested_via = livescan;
  bytes = [];
}

abbrev load : ℕ → Message
load cp = loaded ok (item cp) none

-- Two items of checkpoint 4 around its announcement, and one of checkpoint 5.
abbrev messages : List Message
messages = load 4 ∷ load 5 ∷ announced 4 2 ∷ load 0 ∷ load 4 ∷ []

abbrev after : Tail
unfolding run start
after = elim (run messages start) [ some t ↦ t | none ↦ start ]

tracked : run messages start ≡ some after
unfolding run start after
tracked = refl

times-saved_example : times 4 after.saved ≡ 1
times-saved_example = times-saved 4 2 (omega arith) messages after tracked refl (omega arith)
