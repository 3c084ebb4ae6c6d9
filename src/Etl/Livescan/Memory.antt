-- ===== src/Etl/Livescan/Memory.antt =====
-- What the memory of processed transactions does, with its clean-up.
use huracan.Prelude.{
  ℕ, ◌+◌, ◌^◌, ◌≤◌, ◌<◌, ◌≡◌, refl, inl, inr, Bool, true, false, Option, none, some, List, [], ◌∷◌,
  ◌==◌, ltb, Bool-cases, Option-cases, if◌then◌else◌, arith,
}
use huracan.Prelude.Int.{
  ℤ, pos, negsuc, is_pos, is_neg, pos_part, neg_part, to_i64, neg_i64, abs_i64, sub_i64,
}
use huracan.Etl.Livescan.{Txns, set, polled, scanned, gc, take_polled, Follow, look_up}

-- The entries are markers, of either sign and not above the bound.
abbrev pub IsMarker : ℕ → ℤ → Type 0
IsMarker bound v = (1 ≤ pos_part v + neg_part v) × (pos_part v + neg_part v ≤ bound)

abbrev pub Within : ℕ → Txns → Type 0
Within bound m = (tx : ℕ) (v : ℤ) → m tx ≡ some v → IsMarker bound v

-- All entries are from the side of the scan.
abbrev pub FromScan : ℤ → Txns → Type 0
FromScan marker m = (tx : ℕ) (v : ℤ) → m tx ≡ some v → v ≡ neg_i64 marker

set-Within :
    (bound tx : ℕ) (v : ℤ) (m : Txns)
    → 1 ≤ pos_part v + neg_part v
    → pos_part v + neg_part v ≤ bound
    → Within bound m
    → Within bound (set tx (some v) m)
set-Within bound tx v m a b w k u e = elim (Bool-cases (k == tx)) [
  | inl z ↦ let s : v ≡ u = (let h = simp z at e in ground arith) in rw (← s) (a, b)
  | inr z ↦ w k u (simp z at e)
]

unset-Within : (bound tx : ℕ) (m : Txns) → Within bound m → Within bound (set tx none m)
unset-Within bound tx m w k u e = elim (Bool-cases (k == tx)) [
  | inl z ↦ let h = simp z at e in cc
  | inr z ↦ w k u (simp z at e)
]

nonzero : (v : ℤ) → 1 ≤ pos_part v + neg_part v → is_pos v ≡ false → is_neg v ≡ false → ⊥
nonzero (pos k) low p q = ground arith
nonzero (negsuc k) low p q = ground arith

polled-Within :
    (bound : ℕ) (marker : ℤ) (tx : ℕ) (m : Txns)
    → IsMarker bound marker
    → IsMarker bound (neg_i64 marker)
    → Within bound m
    → (n : Txns) × (polled marker tx m ≡ some n) × Within bound n
unfolding polled
polled-Within bound marker tx m h l w = elim (Option-cases (m tx)) [
  | inl e ↦ (set tx (some marker) m, ground arith, set-Within bound tx marker m h.0 h.1 w)
  | inr (v, e) ↦ elim (Bool-cases (is_pos v)) [
    | inl p ↦ (m, ground arith, w)
    | inr p ↦ elim (Bool-cases (is_neg v)) [
      | inl q ↦ (set tx none m, ground arith, unset-Within bound tx m w)
      | inr q ↦ absurd (let (low, high) = w tx v e in nonzero v low p q)
    ]
  ]
]

pub take_polled-Within :
    (bound : ℕ) (marker : ℤ) (txs : List ℕ) (m : Txns)
    → IsMarker bound marker
    → IsMarker bound (neg_i64 marker)
    → Within bound m
    → (n : Txns) × (take_polled marker txs m ≡ some n) × Within bound n
unfolding take_polled
take_polled-Within bound marker [] m h l w = (m, refl, w)
take_polled-Within bound marker (tx ∷ txs) m h l w =
    let (n, e, v) = polled-Within bound marker tx m h l w in
    let (k, f, u) = take_polled-Within bound marker txs n h l v in (k, ground arith, u)

-- An entry of the scan for a digest, or the removal of one of the polling.
scanned-Within :
    (bound : ℕ) (marker : ℤ) (tx : ℕ) (m : Txns)
    → IsMarker bound marker
    → IsMarker bound (neg_i64 marker)
    → Within bound m
    → (r : Txns × Bool) × (scanned marker tx m ≡ some r) × Within bound r.0
unfolding scanned
scanned-Within bound marker tx m h l w = elim (Option-cases (m tx)) [
  | inl e ↦ (
    (set tx (some (neg_i64 marker)) m, false),
    ground arith,
    set-Within bound tx (neg_i64 marker) m l.0 l.1 w,
  )
  | inr (v, e) ↦ elim (Bool-cases (is_neg v)) [
    | inl q ↦ ((m, false), ground arith, w)
    | inr q ↦ elim (Bool-cases (is_pos v)) [
      | inl p ↦ ((set tx none m, true), ground arith, unset-Within bound tx m w)
      | inr p ↦ absurd (let (low, high) = w tx v e in nonzero v low p q)
    ]
  ]
]

pub look_up-Within :
    (bound : ℕ) (marker : ℤ) (tx : Option ℕ) (f : Follow)
    → IsMarker bound marker
    → IsMarker bound (neg_i64 marker)
    → Within bound f.txns
    → (g : Follow) × (look_up marker tx f ≡ some g) × Within bound g.txns
unfolding look_up
look_up-Within bound marker none f h l w = (f, refl, w)
look_up-Within bound marker (some tx) f h l w =
    let (r, e, v) = scanned-Within bound marker tx f.txns h l w in
    (record f { txns = r.0; skip = r.1 }, ground arith, v)

pub gc-Within : (bound latest_cp : ℕ) (m : Txns) → Within bound m → Within bound (gc latest_cp m)
unfolding gc
gc-Within bound latest_cp m w tx v e = w tx v (kept (m tx) e)
  where
    kept :
        (o : Option ℤ)
        → ◌≡◌ {A = Option ℤ}
            (elim o [
              | none ↦ none
              | some u ↦
                  if ltb 120 (pos_part (sub_i64 (to_i64 latest_cp) (abs_i64 u)))
                  then none
                  else some u
            ])
            (some v)
        → o ≡ some v
    kept none e = cc
    kept (some u) e = ground arith

is_old :
    (latest_cp bound : ℕ) (v : ℤ)
    → bound + 120 < latest_cp
    → latest_cp < 2 ^ 63
    → pos_part v + neg_part v ≤ bound
    → ltb 120 (pos_part (sub_i64 (to_i64 latest_cp) (abs_i64 v))) ≡ true
is_old latest_cp bound (pos n) h fits high = ground arith
is_old latest_cp bound (negsuc n) h fits high = ground arith

-- The clean-up compares the number of the latest checkpoint with a distance from the first one.
pub gc_forgets :
    (latest_cp bound : ℕ) (m : Txns)
    → bound + 120 < latest_cp
    → latest_cp < 2 ^ 63
    → Within bound m
    → (tx : ℕ) → gc latest_cp m tx ≡ none
unfolding gc
gc_forgets latest_cp bound m h fits w tx = elim (Option-cases (m tx)) [
  | inl e ↦ ground arith
  | inr (v, e) ↦
      let (low, high) = w tx v e in
      let old : ltb 120 (pos_part (sub_i64 (to_i64 latest_cp) (abs_i64 v))) ≡ true =
        is_old latest_cp bound v h fits high in
      ground arith
]

-- Without polled transactions in the memory, none is skipped.
scanned-FromScan :
    (marker : ℤ) (tx : ℕ) (m : Txns)
    → is_neg (neg_i64 marker) ≡ true
    → FromScan marker m
    → (n : Txns) × (scanned marker tx m ≡ some (n, false)) × FromScan marker n
unfolding scanned
scanned-FromScan marker tx m h w = elim (Option-cases (m tx)) [
  | inl e ↦ (
    set tx (some (neg_i64 marker)) m,
    ground arith,
    λ k v f. elim (Bool-cases (k == tx)) [
      | inl z ↦ (let g = simp z at f in ground arith)
      | inr z ↦ w k v (simp z at f)
    ],
  )
  | inr (v, e) ↦ let n : is_neg v ≡ true = (let z = w tx v e in rw z h) in (m, ground arith, w)
]

pub look_up-FromScan :
    (marker : ℤ) (tx : Option ℕ) (f : Follow)
    → is_neg (neg_i64 marker) ≡ true
    → f.skip ≡ false
    → FromScan marker f.txns
    → (g : Follow) × (look_up marker tx f ≡ some g)
      × (g.skip ≡ false)
      × FromScan marker g.txns
      × (g.forwarded ≡ f.forwarded)
unfolding look_up
look_up-FromScan marker none f h s w = (f, refl, s, w, refl)
look_up-FromScan marker (some tx) f h s w =
    let (n, e, v) = scanned-FromScan marker tx f.txns h w in
    (record f { txns = n; skip = false }, ground arith, refl, v, refl)
