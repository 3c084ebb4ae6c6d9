-- ===== src/Etl/Livescan/Announced.antt =====
-- How many items a livescan announces for each checkpoint.
use huracan.Prelude.{
  ℕ, ◌+◌, ◌≤◌, ◌≡◌, refl, ◌∙◌, inl, inr, Bool, Option, none, some, List, [], ◌∷◌, ◌++◌, ◌==◌,
  if◌then◌else◌, Bool-cases, arith,
}
use huracan.Prelude.Int.{ℤ}
use huracan.Etl.Types.{ObjectItem}
use huracan.Etl.Livescan.{
  Txns, Follow, begin, look_up, change_checkpoint, count_item, follow, pass_empty, finish, scanned,
  take_polled, cp_offset_marker, gc, livescan_round, follow_scan, livescan_round-follow_scan,
}

-- What the messages announce for a checkpoint.
abbrev pub announced : ℕ → List (ℕ × ℕ) → ℕ
announced x [] = 0
announced x ((cp, n) ∷ ms) = (if cp == x then n else 0) + announced x ms

abbrev pub items_for : ℕ → List (Option ℕ × ObjectItem) → ℕ
items_for x [] = 0
items_for x ((tx, item) ∷ is) = (if item.cp == x then 1 else 0) + items_for x is

announced-append :
    (x : ℕ) (ms ns : List (ℕ × ℕ)) → announced x (ms ++ ns) ≡ announced x ms + announced x ns
announced-append x [] ns = omega arith
announced-append x ((cp, n) ∷ ms) ns = omega (arith, announced-append x ms ns)

announced-pass_empty : (x : ℕ) (ms : List (ℕ × ℕ)) → announced x (pass_empty ms) ≡ 0
unfolding pass_empty
announced-pass_empty x [] = refl
announced-pass_empty x ((cp, n) ∷ ms) = elim (Bool-cases (n == 0)) [
  | inl e ↦ simp e (ground (arith, announced-pass_empty x ms))
  | inr e ↦ simp e (announced-pass_empty x ms)
]

-- Announced already, or counted for the current checkpoint.
abbrev tally : ℕ → Follow → ℕ
tally x f = announced x f.control + (if f.cur_cp == x then f.num_items else 0)

tally-change_checkpoint :
    (x cp : ℕ) (f : Follow) → 1 ≤ x → tally x (change_checkpoint cp f) ≡ tally x f
unfolding change_checkpoint
tally-change_checkpoint x cp f h = elim (Bool-cases (f.cur_cp == cp)) [
  | inl e ↦ simp e
  | inr e ↦ elim (Bool-cases (f.cur_cp == 0)) [
    | inl z ↦ simp (e, z) (ground arith)
    | inr z ↦
        simp (e, z) (ground (arith, announced-append x f.control ((f.cur_cp, f.num_items) ∷ [])))
  ]
]

change_checkpoint-cur_cp : (cp : ℕ) (f : Follow) → (change_checkpoint cp f).cur_cp ≡ cp
unfolding change_checkpoint
change_checkpoint-cur_cp cp f = elim (Bool-cases (f.cur_cp == cp)) [
  | inl e ↦ simp e (ground arith)
  | inr e ↦ simp e
]

tally-count_item :
    (x : ℕ) (tx : Option ℕ) (item : ObjectItem) (f : Follow)
    → f.cur_cp ≡ item.cp
    → tally x (count_item tx item f) ≡ (if item.cp == x then 1 else 0) + tally x f
unfolding count_item
tally-count_item x tx item f e = ground arith

tally-look_up :
    (x : ℕ) (marker : ℤ) (tx : Option ℕ) (f g : Follow)
    → look_up marker tx f ≡ some g
    → tally x g ≡ tally x f
unfolding look_up
tally-look_up x marker none f g h = let e : f ≡ g = ground arith in rw (← e) refl
tally-look_up x marker (some tx) f g h = by_memory (scanned marker tx f.txns) h
  where
    by_memory :
        (o : Option (Txns × Bool))
        → ◌≡◌ {A = Option Follow}
            (elim o [ none ↦ none | some (m, s) ↦ some (record f { txns = m; skip = s }) ])
            (some g)
        → tally x g ≡ tally x f
    by_memory none k = cc
    by_memory (some (m, s)) k =
        let e : record f { txns = m; skip = s } ≡ g = ground arith in rw (← e) refl

tally-follow :
    (x : ℕ) (marker : ℤ) (is : List (Option ℕ × ObjectItem)) (f g : Follow)
    → 1 ≤ x
    → follow marker is f ≡ some g
    → tally x g ≡ tally x f + items_for x is
unfolding follow
tally-follow x marker [] f g h k = let e : f ≡ g = ground arith in rw (← e) (omega arith)
tally-follow x marker ((tx, item) ∷ is) f g h k =
    by_memory (look_up marker tx f) (tally-look_up x marker tx f) k
      (λ t. tally-follow x marker is t g h)
  where
    next : Follow → Follow
    next t = count_item tx item (change_checkpoint item.cp t)

    by_memory :
        (o : Option Follow)
        → ((t : Follow) → o ≡ some t → tally x t ≡ tally x f)
        → ◌≡◌ {A = Option Follow}
            (elim o [ none ↦ none | some t ↦ follow marker is (next t) ])
            (some g)
        → ((t : Follow) → follow marker is t ≡ some g → tally x g ≡ tally x t + items_for x is)
        → tally x g ≡ tally x f + items_for x ((tx, item) ∷ is)
    by_memory none same e ih = cc
    by_memory (some t) same e ih =
        let a : tally x (next t)
            ≡ (if item.cp == x then 1 else 0) + tally x (change_checkpoint item.cp t) =
          tally-count_item x tx item (change_checkpoint item.cp t)
            (change_checkpoint-cur_cp item.cp t) in
        omega (arith, a, tally-change_checkpoint x item.cp t h, same t refl, ih (next t) e)

announced-finish :
    (x : ℕ) (ms : List (ℕ × ℕ)) (f : Follow) → 1 ≤ x → announced x (finish ms f) ≡ tally x f
unfolding finish
announced-finish x ms f h = elim (Bool-cases (f.cur_cp == 0)) [
  | inl z ↦
      simp z
        (ground (arith, announced-append x f.control (pass_empty ms), announced-pass_empty x ms))
  | inr z ↦ simp z (
      omega (
        arith,
        announced-append x (f.control ++ (f.cur_cp, f.num_items) ∷ []) (pass_empty ms),
        announced-append x f.control ((f.cur_cp, f.num_items) ∷ []),
        announced-pass_empty x ms,
      ))
]

-- The loop over the items of a livescan that returns.
pub record Follows (items : List (Option ℕ × ObjectItem)) (marker : ℤ) (scan_control : List (ℕ × ℕ))
    (forwarded : List (Option ℕ × ObjectItem)) (control : List (ℕ × ℕ)) : Type 0 where
  pub memory : Txns
  pub last : Follow
  pub ran : follow marker items (begin memory) ≡ some last
  pub passed : last.forwarded ≡ forwarded
  pub told_all : finish scan_control last ≡ control

pub livescan_round-Follows :
    (cpcompletions latest_cp start_cp : ℕ) (polled_txs : List ℕ)
    (items : List (Option ℕ × ObjectItem)) (scan_control : List (ℕ × ℕ)) (m n : Txns)
    (forwarded : List (Option ℕ × ObjectItem)) (control : List (ℕ × ℕ))
    → livescan_round cpcompletions latest_cp start_cp polled_txs items scan_control m
      ≡ some (n, forwarded, control)
    → Follows items (cp_offset_marker latest_cp start_cp) scan_control forwarded control
unfolding follow_scan
livescan_round-Follows cpcompletions latest_cp start_cp polled_txs items scan_control m n forwarded
      control e =
    by_polled (take_polled marker polled_txs m) (
      livescan_round-follow_scan cpcompletions latest_cp start_cp polled_txs items scan_control m
        (n, forwarded, control) e)
  where
    marker : ℤ
    marker = cp_offset_marker latest_cp start_cp

    by_follow :
        (k : Txns) (o : Option Follow)
        → follow marker items (begin k) ≡ o
        → ◌≡◌ {A = Option (Txns × List (Option ℕ × ObjectItem) × List (ℕ × ℕ))}
            (elim o [ none ↦ none | some f ↦ some (f.txns, f.forwarded, finish scan_control f) ])
            (some (n, forwarded, control))
        → Follows items marker scan_control forwarded control
    by_follow k none p q = cc
    by_follow k (some f) p q = record {
      memory = k;
      last = f;
      ran = p;
      passed = ground arith;
      told_all = ground arith;
    }

    by_polled :
        (o : Option Txns)
        → ◌≡◌ {A = Option (Txns × List (Option ℕ × ObjectItem) × List (ℕ × ℕ))}
            (elim o [
              | none ↦ none
              | some k ↦ elim (follow marker items (begin (gc latest_cp k))) [
                | none ↦ none
                | some f ↦ some (f.txns, f.forwarded, finish scan_control f)
              ]
            ])
            (some (n, forwarded, control))
        → Follows items marker scan_control forwarded control
    by_polled none q = cc
    by_polled (some k) q =
        by_follow (gc latest_cp k) (follow marker items (begin (gc latest_cp k))) refl q

-- A livescan announces for each checkpoint as many items as its scan brought, in whatever order they
-- came: also those that it did not forward, because the polling task had seen their transaction.
livescan_round-announced :
    (x cpcompletions latest_cp start_cp : ℕ) (polled_txs : List ℕ)
    (items : List (Option ℕ × ObjectItem)) (scan_control : List (ℕ × ℕ)) (m n : Txns)
    (forwarded : List (Option ℕ × ObjectItem)) (control : List (ℕ × ℕ))
    → 1 ≤ x
    → livescan_round cpcompletions latest_cp start_cp polled_txs items scan_control m
      ≡ some (n, forwarded, control)
    → announced x control ≡ items_for x items
livescan_round-announced x cpcompletions latest_cp start_cp polled_txs items scan_control m n
      forwarded control h e =
    let r =
      livescan_round-Follows cpcompletions latest_cp start_cp polled_txs items scan_control m n
        forwarded control e in
    rw (← r.told_all) (
      announced-finish x scan_control r.last h
      ∙ tally-follow x (cp_offset_marker latest_cp start_cp) items (begin r.memory) r.last h r.ran
      ∙ ground arith)
