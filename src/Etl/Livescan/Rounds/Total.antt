-- ===== src/Etl/Livescan/Rounds/Total.antt =====
-- When the loop of `run` goes through all its rounds.
use huracan.Prelude.{ℕ, ◌^◌, ◌≡◌, ◌≢◌, true, none, List, [], ◌∷◌}
use huracan.Etl.Livescan.Memory.{Within}
use huracan.Etl.Livescan.{Txns, has_room}
use huracan.Etl.Livescan.Rounds.{Observed}

-- All markers are numbers of 64 bits with a sign, and not 0.
abbrev HasMarkers : Txns → Type 0
HasMarkers m = Within (2 ^ 63) m

-- MongoDB answers, the backfill of the round returns, and no worker of its livescan waits for room for
-- a control message.
abbrev pub IsServed : ℕ → Observed → Type 0
IsServed cpcompletions o =
    (o.last_completed_cp ≢ none)
    × (o.max_cp ≢ none)
    × (has_room cpcompletions o.scan_control ≡ true)

abbrev pub AreServed : ℕ → List Observed → Type 0
AreServed cpcompletions [] = Unit
AreServed cpcompletions (o ∷ os) = IsServed cpcompletions o × AreServed cpcompletions os
