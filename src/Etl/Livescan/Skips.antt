-- ===== src/Etl/Livescan/Skips.antt =====
-- Which items of its scan a livescan forwards.
use huracan.Prelude.{
  append-nil, append_assoc, ℕ, ◌-◌, true, max, sub64, ◌^◌, ◌≤◌, ◌<◌, ◌≡◌, refl, ◌∙◌, sym, ap, inl,
  inr, false, Option, none, some, List, [], ◌∷◌, ◌++◌, ◌==◌, Bool-cases, arith,
}
use huracan.Prelude.Int.{ℤ, pos, negsuc, is_neg, neg_i64}
use huracan.Etl.Types.{ObjectItem}
use huracan.Etl.Livescan.{
  Txns, cp_offset_marker, gc, take_polled, Follow, begin, change_checkpoint, count_item, follow,
  finish, follow_scan, has_room, livescan_round,
}
use huracan.Etl.Livescan.Memory.{Within, FromScan, take_polled-Within, gc_forgets, look_up-FromScan}

-- Counting an item leaves the memory and the switch, and forwards the item.
pass_on :
    (tx : Option ℕ) (item : ObjectItem) (g : Follow)
    → g.skip ≡ false
    → let t = count_item tx item (change_checkpoint item.cp g) in
      (t.skip ≡ false) × (t.txns ≡ g.txns) × (t.forwarded ≡ g.forwarded ++ (tx, item) ∷ [])
unfolding count_item change_checkpoint
pass_on tx item g s = elim (Bool-cases (g.cur_cp == item.cp)) [
  | inl e ↦ simp (e, s) (refl, refl, refl)
  | inr e ↦ simp (e, s) (refl, refl, refl)
]

follow-FromScan :
    (marker : ℤ) (is : List (Option ℕ × ObjectItem)) (f : Follow)
    → is_neg (neg_i64 marker) ≡ true
    → f.skip ≡ false
    → FromScan marker f.txns
    → (g : Follow) × (follow marker is f ≡ some g)
      × FromScan marker g.txns
      × (g.forwarded ≡ f.forwarded ++ is)
unfolding follow
follow-FromScan marker [] f h s w = (f, refl, w, sym (append-nil f.forwarded))
follow-FromScan marker ((tx, item) ∷ is) f h s w =
    let (g, e, skip, v, same) = look_up-FromScan marker tx f h s w in
    let (skip', m, out) = pass_on tx item g skip in
    let t : Follow = count_item tx item (change_checkpoint item.cp g) in
    let (r, e', v', out') = follow-FromScan marker is t h skip' (rw m v) in
    (
      r,
      ground arith,
      v',
      out'
          ∙ ap (λ z. z ++ is) (out ∙ ap (λ z. z ++ (tx, item) ∷ []) same)
          ∙ append_assoc f.forwarded ((tx, item) ∷ []) is,
    )

round_result :
    (cpcompletions latest_cp start_cp : ℕ) (polled_txs : List ℕ)
    (items : List (Option ℕ × ObjectItem)) (scan_control : List (ℕ × ℕ)) (m n : Txns) (f : Follow)
    → has_room cpcompletions scan_control ≡ true
    → take_polled (cp_offset_marker latest_cp start_cp) polled_txs m ≡ some n
    → follow (cp_offset_marker latest_cp start_cp) items (begin (gc latest_cp n)) ≡ some f
    → livescan_round cpcompletions latest_cp start_cp polled_txs items scan_control m
      ≡ some (f.txns, f.forwarded, finish scan_control f)
unfolding livescan_round follow_scan
round_result cpcompletions latest_cp start_cp polled_txs items scan_control m n f room e d =
    ground arith

-- How many checkpoints after the first one of the process, at least 1.
abbrev pub distance : ℕ → ℕ → ℕ
distance latest_cp start_cp = max (latest_cp - start_cp) 1

marker_exact :
    (latest_cp start_cp : ℕ)
    → start_cp ≤ latest_cp
    → latest_cp < 2 ^ 63
    → cp_offset_marker latest_cp start_cp ≡ pos (distance latest_cp start_cp)
unfolding cp_offset_marker
marker_exact latest_cp start_cp k b =
    let same : sub64 latest_cp start_cp ≡ latest_cp - start_cp = omega arith in
    rw same (ground arith)

neg_i64-pos : (n : ℕ) → 1 ≤ n → n < 2 ^ 63 → neg_i64 (pos n) ≡ negsuc (n - 1)
neg_i64-pos n low high = ground arith

-- A livescan of a process that started at checkpoint 122 or later forwards all items that its scan
-- brings, also those of transactions that the polling task has seen, which were forwarded before:
-- the clean-up removes what the memory holds. It does not panic. The latest checkpoint is below
-- 2 ^ 63 and not before the first one, the control messages have room in their channel, and the memory,
-- here one whose entries are markers of this or earlier rounds, is such again.
pub livescan_round_skips_none :
    (cpcompletions latest_cp start_cp : ℕ) (polled_txs : List ℕ)
    (items : List (Option ℕ × ObjectItem)) (scan_control : List (ℕ × ℕ)) (m : Txns)
    → has_room cpcompletions scan_control ≡ true
    → 122 ≤ start_cp
    → start_cp ≤ latest_cp
    → latest_cp < 2 ^ 63
    → Within (distance latest_cp start_cp) m
    → (n : Txns) × (control : List (ℕ × ℕ)) × (livescan_round cpcompletions latest_cp start_cp
          polled_txs items scan_control m
        ≡ some (n, items, control))
      × FromScan (cp_offset_marker latest_cp start_cp) n
livescan_round_skips_none cpcompletions latest_cp start_cp polled_txs items scan_control m room h k
      b w =
    let marker : ℤ = cp_offset_marker latest_cp start_cp in
    let bound : ℕ = distance latest_cp start_cp in
    let exact : marker ≡ pos bound = marker_exact latest_cp start_cp k b in
    let turned : neg_i64 marker ≡ negsuc (bound - 1) =
      rw exact (neg_i64-pos bound (omega arith) (omega arith)) in
    let (n, e, v) =
      take_polled-Within bound marker polled_txs m (rw exact (omega arith, omega arith))
        (rw turned (omega arith, omega arith)) w in
    let empty : (tx : ℕ) → gc latest_cp n tx ≡ none =
      gc_forgets latest_cp bound n (omega arith) b v in
    let (f, e', u, out) =
      follow-FromScan marker items (begin (gc latest_cp n)) (rw turned refl) refl
        (λ tx x y. let z = empty tx in ground arith) in
    (
      f.txns,
      finish scan_control f,
      round_result cpcompletions latest_cp start_cp polled_txs items scan_control m n f room e e'
          ∙ ap (λ (z : List (Option ℕ × ObjectItem)). some (f.txns, z, finish scan_control f)) out,
      u,
    )
