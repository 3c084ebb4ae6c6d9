-- ===== src/Tests/Rounds.antt =====
-- Livescans whose items come in groups, and one whose items do not.
use huracan.Prelude.{
  ℕ, ◌≤◌, ◌≡◌, refl, inl, inr, false, Option, none, some, List, [], ◌∷◌, ◌==◌, Bool-cases, arith,
}
use huracan.Etl.Types.{ObjectItem, livescan, ok}
use huracan.Etl.Scan.Counts.{items_of}
use huracan.Etl.Scan.Ledger.{told}
use huracan.Etl.Livescan.{Txns, livescan_round, follow_scan}
use huracan.Etl.Livescan.Grouped.{IsGrouped, livescan_round-IsExact}
use huracan.Etl.Pipeline.Saved.{IsExact}
use huracan.Etl.Tail.{Message, loaded, announced, start, run}

abbrev item : ℕ → ObjectItem
item cp = record {
  cp = cp;
  deletion = false;
  id = 1;
  version = 1;
  ts_sui = some 5;
  ts_first_seen = 10;
  ingested_via = livescan;
  bytes = [];
}

abbrev pub grouped : List (Option ℕ × ObjectItem)
grouped = (some 51, item 201) ∷ (none, item 201) ∷ (some 53, item 202) ∷ []

abbrev pub scan_control : List (ℕ × ℕ)
scan_control = (201, 2) ∷ (202, 1) ∷ (203, 0) ∷ []

grouped-IsGrouped : IsGrouped 0 grouped
grouped-IsGrouped = (inr refl, (inl refl, (inr refl, tt)))

scan_control-IsExact : IsExact grouped scan_control
scan_control-IsExact x real = elim (Bool-cases (201 == x)) [
  | inl e ↦ inr (ground arith)
  | inr e ↦ elim (Bool-cases (202 == x)) [
    | inl f ↦ inr (ground arith)
    | inr f ↦ elim (Bool-cases (203 == x)) [
      | inl g ↦ inr (ground arith)
      | inr g ↦ inl (ground arith)
    ]
  ]
]

abbrev pub no_txns : Txns
no_txns = λ tx. none

abbrev late : Txns × List (Option ℕ × ObjectItem) × List (ℕ × ℕ)
unfolding livescan_round follow_scan
late = elim (livescan_round 3 203 200 [] grouped scan_control no_txns) [
  | some r ↦ r
  | none ↦ (no_txns, [], [])
]

late_round :
    livescan_round 3 203 200 [] grouped scan_control no_txns ≡ some (late.0, grouped, scan_control)
unfolding livescan_round follow_scan late
late_round = refl

livescan_round-IsExact_example :
    IsExact grouped scan_control
    × ((x : ℕ) → 1 ≤ x → 1 ≤ items_of x grouped → told x scan_control ≡ items_of x grouped ∷ [])
livescan_round-IsExact_example =
    livescan_round-IsExact 3 203 200 [] grouped scan_control no_txns late.0 scan_control
      grouped-IsGrouped scan_control-IsExact late_round

-- Items of two workers that alternate: checkpoint 201 is announced twice, one item at a time.
abbrev mixed : List (Option ℕ × ObjectItem)
mixed = (some 51, item 201) ∷ (some 53, item 202) ∷ (some 52, item 201) ∷ []

abbrev control_of : Option (Txns × List (Option ℕ × ObjectItem) × List (ℕ × ℕ)) → List (ℕ × ℕ)
control_of none = []
control_of (some r) = r.2

mixed_control :
    control_of (livescan_round 3 203 200 [] mixed ((201, 2) ∷ (202, 1) ∷ []) no_txns)
    ≡ (201, 1) ∷ (202, 1) ∷ (201, 1) ∷ []
unfolding livescan_round follow_scan
mixed_control = refl

-- The last task then saves the checkpoint when the first of its two items is loaded.
abbrev saved_after : List Message → List ℕ
saved_after ms = elim (run ms start) [ some t ↦ t.saved | none ↦ [] ]

saved_early : saved_after (loaded ok (item 201) none ∷ announced 201 1 ∷ []) ≡ 201 ∷ []
unfolding run start
saved_early = refl
