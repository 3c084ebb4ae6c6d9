-- ===== src/Etl/Livescan/Grouped.antt =====
-- main/src/etl.rs: the control messages of a livescan whose items come one checkpoint after the other.
use huracan.Prelude.{
  append-nil, append_assoc, ℕ, ◌+◌, ◌≤◌, ◌≡◌, refl, sym, ◌∙◌, ap, ◌⊎◌, inl, inr, Bool, true, false,
  Option, none, some, List, [], ◌∷◌, ◌++◌, ◌==◌, if◌then◌else◌, Bool-cases, arith,
}
use huracan.Prelude.Int.{ℤ}
use huracan.Etl.Types.{ObjectItem}
use huracan.Etl.Scan.Counts.{items_of}
use huracan.Etl.Scan.Ledger.{told, told-append}
use huracan.Etl.Pipeline.Saved.{IsExact}
use huracan.Etl.Livescan.Announced.{livescan_round-Follows}
use huracan.Etl.Livescan.{
  Txns, Follow, begin, look_up, change_checkpoint, count_item, follow, pass_empty, finish, scanned,
  cp_offset_marker, livescan_round,
}

-- Once the items of another checkpoint come, no item of the checkpoint before comes any more.
abbrev pub IsGrouped : ℕ → List (Option ℕ × ObjectItem) → Type 0
IsGrouped cur [] = Unit
IsGrouped cur ((tx, item) ∷ is) =
    ((item.cp ≡ cur) ⊎ (items_of cur ((tx, item) ∷ is) ≡ 0)) × IsGrouped item.cp is

-- All that is announced once the current checkpoint is, too.
abbrev all_control : Follow → List (ℕ × ℕ)
all_control f = if f.cur_cp == 0 then f.control else f.control ++ (f.cur_cp, f.num_items) ∷ []

told_one :
    (x cp n : ℕ) (ms : List (ℕ × ℕ))
    → (cp == x) ≡ true
    → told x (ms ++ (cp, n) ∷ []) ≡ told x ms ++ n ∷ []
told_one x cp n ms e =
    told-append x ms ((cp, n) ∷ []) ∙ ap (λ (b : Bool). told x ms ++ (if b then n ∷ [] else [])) e

told_other :
    (x cp n : ℕ) (ms : List (ℕ × ℕ)) → (cp == x) ≡ false → told x (ms ++ (cp, n) ∷ []) ≡ told x ms
told_other x cp n ms e =
    told-append x ms ((cp, n) ∷ [])
    ∙ ap (λ (b : Bool). told x ms ++ (if b then n ∷ [] else [])) e
    ∙ append-nil (told x ms)

-- What `due` says of an item's checkpoint, its count and what is to come.
abbrev owed : ℕ → ℕ → ℕ → ℕ → List ℕ
owed x cur num n = if cur == x then (num + n) ∷ [] else if n == 0 then [] else n ∷ []

-- An item of the current checkpoint.
owed_same :
    (x cp cur num n : ℕ)
    → cp ≡ cur
    → owed x cur (num + 1) n ≡ owed x cur num ((if cp == x then 1 else 0) + n)
owed_same x cp cur num n e = ground arith

-- An item of another checkpoint, which no item of the current one follows.
owed_other :
    (x cp cur num n : ℕ) (ms : List (ℕ × ℕ))
    → 1 ≤ x
    → (cur == cp) ≡ false
    → (cur ≡ x → n ≡ 0)
    → told x (if cur == 0 then ms else ms ++ (cur, num) ∷ []) ++ owed x cp 1 n
      ≡ told x ms ++ owed x cur num ((if cp == x then 1 else 0) + n)
owed_other x cp cur num n ms real other last = elim (Bool-cases (cur == x)) [
  | inl e ↦
      let none_left : n ≡ 0 = last (ground arith) in
      let nonzero : (cur == 0) ≡ false = ground arith in
      let away : (cp == x) ≡ false = ground arith in
      rw nonzero (
        ap (λ z. z ++ owed x cp 1 n) (told_one x cur num ms e)
        ∙ append_assoc (told x ms) (num ∷ []) (owed x cp 1 n)
        ∙ ground arith)
  | inr e ↦ elim (Bool-cases (cur == 0)) [
    | inl z ↦ rw z (ground arith)
    | inr z ↦ rw z (ap (λ t. t ++ owed x cp 1 n) (told_other x cur num ms e) ∙ ground arith)
  ]
]

abbrev owed_by : ℕ → Follow → ℕ → List ℕ
owed_by x f n = owed x f.cur_cp f.num_items n

told-next :
    (x : ℕ) (tx : Option ℕ) (item : ObjectItem) (is : List (Option ℕ × ObjectItem)) (f : Follow)
    → 1 ≤ x
    → (item.cp ≡ f.cur_cp) ⊎ (items_of f.cur_cp ((tx, item) ∷ is) ≡ 0)
    → let g = count_item tx item (change_checkpoint item.cp f) in
      told x g.control ++ owed_by x g (items_of x is)
      ≡ told x f.control ++ owed_by x f (items_of x ((tx, item) ∷ is))
unfolding count_item change_checkpoint
told-next x tx item is f real h = elim (Bool-cases (f.cur_cp == item.cp)) [
  | inl e ↦ simp e (
      ap (λ z. told x f.control ++ z)
        (owed_same x item.cp f.cur_cp f.num_items (items_of x is) (ground arith)))
  | inr e ↦
      let last : f.cur_cp ≡ x → items_of x is ≡ 0 = (λ same. elim h [
        | inl own ↦ absurd (ground arith)
        | inr gone ↦ ap (λ (y : ℕ). items_of y is) (sym same) ∙ omega (arith, gone)
      ]) in
      simp e (owed_other x item.cp f.cur_cp f.num_items (items_of x is) f.control real e last)
]

-- The memory of the transactions does not matter here.
IsSameCount : Follow → Follow → Type 0
IsSameCount f g = (g.control ≡ f.control) × (g.cur_cp ≡ f.cur_cp) × (g.num_items ≡ f.num_items)

look_up-IsSameCount :
    (marker : ℤ) (tx : Option ℕ) (f g : Follow) → look_up marker tx f ≡ some g → IsSameCount f g
unfolding look_up IsSameCount
look_up-IsSameCount marker none f g h = let e : f ≡ g = ground arith in rw (← e) (refl, refl, refl)
look_up-IsSameCount marker (some tx) f g h = by_memory (scanned marker tx f.txns) h
  where
    by_memory :
        (o : Option (Txns × Bool))
        → ◌≡◌ {A = Option Follow}
            (elim o [ none ↦ none | some (m, s) ↦ some (record f { txns = m; skip = s }) ])
            (some g)
        → IsSameCount f g
    by_memory none k = cc
    by_memory (some (m, s)) k =
        let e : record f { txns = m; skip = s } ≡ g = ground arith in rw (← e) (refl, refl, refl)

change_checkpoint-cur_cp : (cp : ℕ) (f : Follow) → (change_checkpoint cp f).cur_cp ≡ cp
unfolding change_checkpoint
change_checkpoint-cur_cp cp f = elim (Bool-cases (f.cur_cp == cp)) [
  | inl e ↦ simp e (ground arith)
  | inr e ↦ simp e
]

told-follow :
    (x : ℕ) (marker : ℤ) (is : List (Option ℕ × ObjectItem)) (f g : Follow)
    → 1 ≤ x
    → IsGrouped f.cur_cp is
    → follow marker is f ≡ some g
    → told x g.control ++ owed_by x g 0 ≡ told x f.control ++ owed_by x f (items_of x is)
unfolding follow IsSameCount
told-follow x marker [] f g real h k = let e : f ≡ g = ground arith in rw (← e) refl
told-follow x marker ((tx, item) ∷ is) f g real (h, hs) k =
    by_memory (look_up marker tx f) (look_up-IsSameCount marker tx f) k
      (λ t. told-follow x marker is t g real)
  where
    next : Follow → Follow
    next t = count_item tx item (change_checkpoint item.cp t)

    by_memory :
        (o : Option Follow)
        → ((t : Follow) → o ≡ some t → IsSameCount f t)
        → ◌≡◌ {A = Option Follow}
            (elim o [ none ↦ none | some t ↦ follow marker is (next t) ])
            (some g)
        → ((t : Follow)
            → IsGrouped t.cur_cp is
            → follow marker is t ≡ some g
            → told x g.control ++ owed_by x g 0 ≡ told x t.control ++ owed_by x t (items_of x is))
        → told x g.control ++ owed_by x g 0
          ≡ told x f.control ++ owed_by x f (items_of x ((tx, item) ∷ is))
    by_memory none same e ih = cc
    by_memory (some t) same e ih =
        let (c, u, n) = same t refl in
        let h' : (item.cp ≡ t.cur_cp) ⊎ (items_of t.cur_cp ((tx, item) ∷ is) ≡ 0) = elim h [
          | inl a ↦ inl (a ∙ sym u)
          | inr b ↦ inr (ap (λ (y : ℕ). items_of y ((tx, item) ∷ is)) u ∙ b)
        ] in
        let cur : (next t).cur_cp ≡ item.cp = change_checkpoint-cur_cp item.cp t in
        ih (next t) (rw cur hs) e ∙ told-next x tx item is t real h' ∙ rw (c, u, n) refl

-- The messages for checkpoints without items: the zeros.
abbrev zeros_of : List ℕ → List ℕ
zeros_of [] = []
zeros_of (n ∷ ns) = let rest = zeros_of ns in if n == 0 then n ∷ rest else rest

told-pass_empty : (x : ℕ) (ms : List (ℕ × ℕ)) → told x (pass_empty ms) ≡ zeros_of (told x ms)
unfolding pass_empty
told-pass_empty x [] = refl
told-pass_empty x ((cp, n) ∷ ms) = ground (arith, told-pass_empty x ms)

told-finish :
    (x : ℕ) (ms : List (ℕ × ℕ)) (f : Follow)
    → 1 ≤ x
    → told x (finish ms f) ≡ (told x f.control ++ owed_by x f 0) ++ zeros_of (told x ms)
unfolding finish
told-finish x ms f real = elim (Bool-cases (f.cur_cp == 0)) [
  | inl z ↦ simp z (
      told-append x f.control (pass_empty ms)
      ∙ ground (arith, told-pass_empty x ms, append-nil (told x f.control)))
  | inr z ↦ simp z (
      told-append x (f.control ++ (f.cur_cp, f.num_items) ∷ []) (pass_empty ms)
      ∙ elim (Bool-cases (f.cur_cp == x)) [
        | inl e ↦ ground (arith, told_one x f.cur_cp f.num_items f.control e, told-pass_empty x ms)
        | inr e ↦ ground (
          arith,
          told_other x f.cur_cp f.num_items f.control e,
          told-pass_empty x ms,
          append-nil (told x f.control),
        )
      ])
]

-- What a livescan that forwards all items of its scan says about a checkpoint.
pub livescan_round-told :
    (x cpcompletions latest_cp start_cp : ℕ) (polled_txs : List ℕ)
    (items : List (Option ℕ × ObjectItem)) (scan_control : List (ℕ × ℕ)) (m n : Txns)
    (control : List (ℕ × ℕ))
    → 1 ≤ x
    → IsGrouped 0 items
    → livescan_round cpcompletions latest_cp start_cp polled_txs items scan_control m
      ≡ some (n, items, control)
    → told x control
      ≡ (if items_of x items == 0 then [] else items_of x items ∷ [])
        ++ zeros_of (told x scan_control)
livescan_round-told x cpcompletions latest_cp start_cp polled_txs items scan_control m n control
      real grouped e =
    let r =
      livescan_round-Follows cpcompletions latest_cp start_cp polled_txs items scan_control m n
        items control e in
    ap (told x) (sym r.told_all)
    ∙ told-finish x scan_control r.last real
    ∙ ap (λ z. z ++ zeros_of (told x scan_control))
        (told-follow x (cp_offset_marker latest_cp start_cp) items (begin r.memory) r.last real
            grouped r.ran
          ∙ ground arith)

-- A livescan that forwards all items of its scan, where these come one checkpoint after the other,
-- announces each checkpoint once at most, with the number of the items forwarded for it, if its scan
-- does so; and it announces each checkpoint that has items, also one that the scan gave up.
pub livescan_round-IsExact :
    (cpcompletions latest_cp start_cp : ℕ) (polled_txs : List ℕ)
    (items : List (Option ℕ × ObjectItem)) (scan_control : List (ℕ × ℕ)) (m n : Txns)
    (control : List (ℕ × ℕ))
    → IsGrouped 0 items
    → IsExact items scan_control
    → livescan_round cpcompletions latest_cp start_cp polled_txs items scan_control m
      ≡ some (n, items, control)
    → IsExact items control
      × ((x : ℕ) → 1 ≤ x → 1 ≤ items_of x items → told x control ≡ items_of x items ∷ [])
livescan_round-IsExact cpcompletions latest_cp start_cp polled_txs items scan_control m n control
      grouped exact e =
    let all = (λ (x : ℕ) (real : 1 ≤ x).
      livescan_round-told x cpcompletions latest_cp start_cp polled_txs items scan_control m n
        control real grouped e) in
    (
      λ x real.
          let a = all x real in elim (exact x real) [ inl z ↦ ground arith | inr z ↦ ground arith ],
      λ x real some_.
          let a = all x real in elim (exact x real) [ inl z ↦ ground arith | inr z ↦ ground arith ],
    )
