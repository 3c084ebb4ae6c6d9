-- ===== src/Etl/Tail/Balance.antt =====
-- What is left for a checkpoint: the items announced less those loaded, whatever the order.
use huracan.Prelude.{
  ℕ, ◌+◌, ◌≡◌, refl, ◌∙◌, inl, inr, false, Option, none, some, List, [], ◌∷◌, ◌==◌, if◌then◌else◌,
  Bool-cases, Option-cases, ap, arith,
}
use huracan.Prelude.Int.{ℤ, pos, negsuc, pos_part, neg_part, ◌+ℤ◌, is_zero, sub_ℕ}
use huracan.Etl.Types.{ObjectItem, StepStatus, ok, err}
use huracan.Etl.Tail.{
  Message, loaded, announced, Tail, start, bump, settle, track_latency, resend, step, run,
}

-- The items loaded and announced for a checkpoint. Items of the poller have checkpoint 0.
abbrev pub loads : ℕ → List Message → ℕ
loads cp [] = 0
loads cp (loaded status item t ∷ ms) =
    (if item.cp == 0 then 0 else if item.cp == cp then 1 else 0) + loads cp ms
loads cp (announced j n ∷ ms) = loads cp ms

abbrev pub announcements : ℕ → List Message → List ℕ
announcements cp [] = []
announcements cp (loaded status item t ∷ ms) = announcements cp ms
announcements cp (announced j n ∷ ms) =
    let rest = announcements cp ms in if j == cp then n ∷ rest else rest

abbrev pub total : List ℕ → ℕ
total [] = 0
total (n ∷ ns) = n + total ns

-- The counter of a checkpoint, 0 where the map has none.
abbrev pub or_zero : Option ℤ → ℤ
or_zero none = pos 0
or_zero (some v) = v

abbrev pub left : ℕ → Tail → ℤ
left cp t = or_zero (t.completions_left cp)

-- The latency changes no counter and saves nothing.
track_latency-keeps :
    (a b : Option ℕ) (c : ℕ) (t u : Tail)
    → track_latency a b c t ≡ some u
    → (u.completions_left ≡ t.completions_left)
      × (u.saved ≡ t.saved)
      × (u.max_cp_completed ≡ t.max_cp_completed)
      × (u.retries ≡ t.retries)
unfolding track_latency
track_latency-keeps a b c t u h = ground arith

abbrev left_settled : ℤ → Option ℤ
left_settled v = if is_zero v then none else some v

or_zero-left_settled : (v : ℤ) → or_zero (left_settled v) ≡ v
or_zero-left_settled (pos n) = ground arith
or_zero-left_settled (negsuc n) = refl

settle-completions_left :
    (cp j : ℕ) (d : ℤ) (t : Tail)
    → (settle cp d t).completions_left j
      ≡ (if j == cp then left_settled (bump (t.completions_left cp) d) else t.completions_left j)
unfolding settle
settle-completions_left cp j d t = ground arith

bump-or_zero : (o : Option ℤ) (d : ℤ) → bump o d ≡ or_zero o +ℤ d
unfolding ◌+ℤ◌
bump-or_zero none (pos n) = ground arith
bump-or_zero none (negsuc n) = ground arith
bump-or_zero (some v) d = refl

-- A message for `cp` adds `d` to its counter.
settle-left_self : (cp : ℕ) (d : ℤ) (t : Tail) → left cp (settle cp d t) ≡ left cp t +ℤ d
settle-left_self cp d t =
    ap or_zero {y = left_settled (bump (t.completions_left cp) d)}
      (settle-completions_left cp cp d t ∙ ground arith)
    ∙ or_zero-left_settled (bump (t.completions_left cp) d)
    ∙ bump-or_zero (t.completions_left cp) d

settle-left_other :
    (cp j : ℕ) (d : ℤ) (t : Tail) → (j == cp) ≡ false → left j (settle cp d t) ≡ left j t
settle-left_other cp j d t h =
    ap or_zero {y = t.completions_left j} (settle-completions_left cp j d t ∙ ground arith)

+ℤ_parts :
    (a b : ℤ)
    → pos_part (a +ℤ b) + neg_part a + neg_part b ≡ neg_part (a +ℤ b) + pos_part a + pos_part b
unfolding ◌+ℤ◌
+ℤ_parts a b = ground arith

-- The counter moves from `t` to `u` by `up` and `down`.
abbrev Moves : ℕ → ℕ → ℕ → Tail → Tail → Type 0
Moves cp up down t u =
    pos_part (left cp u) + neg_part (left cp t) + down
    ≡ neg_part (left cp u) + pos_part (left cp t) + up

settle-Moves :
    (cp j : ℕ) (d : ℤ) (t : Tail)
    → Moves j
        (if cp == j then pos_part d else 0)
        (if cp == j then neg_part d else 0)
        t
        (settle cp d t)
settle-Moves cp j d t = elim (Bool-cases (cp == j)) [
  | inl own ↦
      let e : cp ≡ j = ground arith in
      rw own (rw (← e) (rw (settle-left_self cp d t) (omega (arith, +ℤ_parts (left cp t) d))))
  | inr other ↦ rw other (rw (settle-left_other cp j d t (ground arith)) (omega arith))
]

-- What a round does with a loaded item, once its latency is tracked in `w`.
pub step-loaded :
    (status : StepStatus) (item : ObjectItem) (at : Option ℕ) (t u : Tail)
    → step (loaded status item at) t ≡ some u
    → (w : Tail) × (w.completions_left ≡ t.completions_left)
      × (w.saved ≡ t.saved)
      × (w.max_cp_completed ≡ t.max_cp_completed)
      × (w.retries ≡ t.retries)
      × (u ≡ (if item.cp == 0 then w else settle item.cp (negsuc 0) (resend status item w)))
unfolding step
step-loaded status item at t u h =
    elim (Option-cases (track_latency item.ts_sui at item.ts_first_seen t)) [
      | inl e ↦ ground arith
      | inr (w, e) ↦
          let k = track_latency-keeps item.ts_sui at item.ts_first_seen t w e in
          (w, k.0, k.1, k.2, k.3, ground arith)
    ]

resend-completions_left :
    (status : StepStatus) (item : ObjectItem) (t : Tail)
    → (resend status item t).completions_left ≡ t.completions_left
resend-completions_left ok item t = refl
resend-completions_left err item t = refl

Moves-along :
    (cp up down : ℕ) (t t' u u' : Tail)
    → left cp t' ≡ left cp t
    → u ≡ u'
    → Moves cp up down t' u'
    → Moves cp up down t u
Moves-along cp up down t t' u u' e f m = rw (f, ← e) m

step-Moves :
    (cp : ℕ) (m : Message) (t u : Tail)
    → step m t ≡ some u
    → Moves cp (total (announcements cp (m ∷ []))) (loads cp (m ∷ [])) t u
step-Moves cp (loaded status item at) t u h =
    let (w, lefts, _, _, _, e) = step-loaded status item at t u h in
    let w' = resend status item w in
    let same : left cp w ≡ left cp t = ap (λ (f : ℕ → Option ℤ). or_zero (f cp)) lefts in
    let same' : left cp w' ≡ left cp t =
      ap (λ (f : ℕ → Option ℤ). or_zero (f cp)) (resend-completions_left status item w) ∙ same in
    elim (Bool-cases (item.cp == 0)) [
      | inl z ↦ rw z (Moves-along cp 0 0 t w u w same (ground arith) (omega arith))
      | inr z ↦ rw z (
          Moves-along cp 0 _ t w' u (settle item.cp (negsuc 0) w') same' (ground arith)
            (ground (arith, settle-Moves item.cp cp (negsuc 0) w')))
    ]
step-Moves cp (announced j n) t u h =
    Moves-along cp _ _ t t u (settle j (pos n) t) refl (unfold step in ground arith)
      (ground (arith, settle-Moves j cp (pos n) t))

chain :
    (cp : ℕ) (m : Message) (ms : List Message) (t v u : Tail)
    → Moves cp (total (announcements cp (m ∷ []))) (loads cp (m ∷ [])) t v
    → Moves cp (total (announcements cp ms)) (loads cp ms) v u
    → Moves cp (total (announcements cp (m ∷ ms))) (loads cp (m ∷ ms)) t u
chain cp (loaded status item at) ms t v u p q = omega arith
chain cp (announced j n) ms t v u p q = ground arith

parts_sub : (v : ℤ) (a b : ℕ) → pos_part v + 0 + b ≡ neg_part v + 0 + a → v ≡ sub_ℕ a b
parts_sub (pos n) a b h = ground arith
parts_sub (negsuc n) a b h = ground arith

run-Moves :
    (cp : ℕ) (ms : List Message) (t u : Tail)
    → run ms t ≡ some u
    → Moves cp (total (announcements cp ms)) (loads cp ms) t u
unfolding run
run-Moves cp [] t u h = let e : t ≡ u = ground arith in rw e (omega arith)
run-Moves cp (m ∷ ms) t u h = elim (Option-cases (step m t)) [
  | inl e ↦ cc (rw (e, run) at h)
  | inr (v, e) ↦
      chain cp m ms t v u (step-Moves cp m t v e) (run-Moves cp ms v u (rw (e, run) at h))
]

-- Whatever the order of the messages, the counter of a checkpoint is the number of items announced
-- for it less the number loaded.
run-left :
    (cp : ℕ) (ms : List Message) (u : Tail)
    → run ms start ≡ some u
    → left cp u ≡ sub_ℕ (total (announcements cp ms)) (loads cp ms)
run-left cp ms u h = parts_sub (left cp u) _ _ (unfold start in run-Moves cp ms start u h)
