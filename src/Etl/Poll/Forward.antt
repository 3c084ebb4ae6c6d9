-- ===== src/Etl/Poll/Forward.antt =====
-- Which checkpoints of a page are announced to the processor of checkpoints.
use huracan.Prelude.{
  ℕ, ◌+◌, ◌≡◌, refl, ap, ◌∙◌, inl, inr, ◌⊎◌, Option, Bool, true, false, ◌||◌, not, ◌&&◌, none, some,
  List, [], ◌∷◌, ◌++◌, elem, length, ◌==◌, if◌then◌else◌, Bool-cases, Option-cases, arith,
}
use huracan.Client.Changes.{ObjectChange, parse_change}
use huracan.Etl.Types.{Block}
use huracan.Etl.Poll.{
  Poll, emit_object, emit_change, emit_changes, forward, observe, take_block, take_blocks,
  take_page,
}

abbrev pub times : ℕ → List ℕ → ℕ
times x [] = 0
times x (y ∷ ys) = (if y == x then 1 else 0) + times x ys

times-append : (x : ℕ) (xs ys : List ℕ) → times x (xs ++ ys) ≡ times x xs + times x ys
times-append x [] ys = omega arith
times-append x (y ∷ xs) ys = omega (arith, times-append x xs ys)

-- A block of the page is part of the checkpoint.
abbrev pub has_checkpoint : ℕ → List Block → Bool
has_checkpoint x [] = false
has_checkpoint x (b ∷ bs) =
    (elim b.checkpoint [ none ↦ false | some cp ↦ cp == x ]) || has_checkpoint x bs

-- What forwarding a block leaves as it was, while the channel stays open.
record Same (p q : Poll) : Type 0 where
  still_open : q.is_closed ≡ p.is_closed
  same_checkpoints : q.checkpoints ≡ p.checkpoints
  same_observed : q.observed ≡ p.observed

module _ (items_open : ℕ → Bool) (open_all : (k : ℕ) → items_open k ≡ true) where
  emit_object-Same :
      (b : Block) (ts : ℕ) (c : ℕ × ℕ × Bool) (p : Poll) → Same p (emit_object items_open b ts c p)
  unfolding emit_object
  emit_object-Same b ts (id, version, deletion) p =
      simp (open_all (length p.sent))
        (record { still_open = refl; same_checkpoints = refl; same_observed = refl })

  Same-trans : (p q r : Poll) → Same p q → Same q r → Same p r
  Same-trans p q r s t = record {
    still_open = t.still_open ∙ s.still_open;
    same_checkpoints = t.same_checkpoints ∙ s.same_checkpoints;
    same_observed = t.same_observed ∙ s.same_observed;
  }

  Same-refl : (p : Poll) → Same p p
  Same-refl p = record { still_open = refl; same_checkpoints = refl; same_observed = refl }

  emit_change-Same :
      (b : Block) (ts : ℕ) (c : ObjectChange) (p : Poll)
      → Same p (if p.is_closed then p else emit_change items_open b ts c p)
  unfolding emit_change
  emit_change-Same b ts c p = by_state p.is_closed (parse_change c)
    where
      by_state :
          (closed : Bool) (o : Option (ℕ × ℕ × Bool))
          → Same p (
              if closed
              then p
              else elim o [ none ↦ p | some parsed ↦ emit_object items_open b ts parsed p ])
      by_state true o = Same-refl p
      by_state false none = Same-refl p
      by_state false (some parsed) = emit_object-Same b ts parsed p

  emit_changes-Same :
      (b : Block) (ts : ℕ) (cs : List ObjectChange) (p : Poll)
      → Same p (emit_changes items_open b ts cs p)
  unfolding emit_changes
  emit_changes-Same b ts [] p = Same-refl p
  emit_changes-Same b ts (c ∷ cs) p =
      let q : Poll = (if p.is_closed then p else emit_change items_open b ts c p) in
      Same-trans p q (emit_changes items_open b ts cs q) (emit_change-Same b ts c p)
        (emit_changes-Same b ts cs q)

  forward-Same : (b : Block) (ts : ℕ) (p : Poll) → Same p (forward items_open b ts p)
  unfolding forward
  forward-Same b ts p = by_changes b.object_changes
    where
      q : Poll
      q = record p { tx_digest_once = some b.digest }

      by_changes :
          (o : Option (List ObjectChange))
          → Same p (elim o [ none ↦ q | some changes ↦ emit_changes items_open b ts changes q ])
      by_changes none = record { still_open = refl; same_checkpoints = refl; same_observed = refl }
      by_changes (some cs) =
          let s = emit_changes-Same b ts cs q in
          record {
            still_open = s.still_open;
            same_checkpoints = s.same_checkpoints;
            same_observed = s.same_observed;
          }

  -- How often a checkpoint is still to be observed.
  abbrev due : ℕ → List Block → List ℕ → ℕ
  due x bs seen = if has_checkpoint x bs && not (elem x seen) then 1 else 0

  -- What a block does to that.
  abbrev Effect : ℕ → Block → Poll → Poll → Type 0
  Effect x b p q =
      (q.is_closed ≡ p.is_closed)
      × ((bs : List Block)
          → times x q.observed + due x bs q.checkpoints
            ≡ times x p.observed + due x (b ∷ bs) p.checkpoints)

  forward-Effect :
      (x : ℕ) (b : Block) (p q : Poll)
      → Same p q
      → (b.checkpoint ≡ none)
        ⊎ ((cp : ℕ) × (b.checkpoint ≡ some cp) × (elem cp p.checkpoints ≡ true))
      → Effect x b p q
  forward-Effect x b p q s (inl e) =
      (s.still_open, λ bs. rw (s.same_observed, s.same_checkpoints) (simp e))
  forward-Effect x b p q s (inr (cp, e, m)) =
      (s.still_open, λ bs. rw (s.same_observed, s.same_checkpoints) (simp e (ground arith)))

  observe-Effect :
      (x cp : ℕ) (b : Block) (p : Poll)
      → b.checkpoint ≡ some cp
      → elem cp p.checkpoints ≡ false
      → Effect x b p (observe items_open cp p)
  observe-Effect x cp b p e m =
      (refl, λ bs. simp e (ground (arith, times-append x p.observed (cp ∷ []))))

  take_block_new :
      (ts cp : ℕ) (b : Block) (p : Poll)
      → b.checkpoint ≡ some cp
      → elem cp p.checkpoints ≡ false
      → take_block items_open ts b p ≡ observe items_open cp p
  unfolding take_block
  take_block_new ts cp b p e m = ground arith

  take_block_again :
      (ts : ℕ) (b : Block) (p : Poll)
      → (b.checkpoint ≡ none)
        ⊎ ((cp : ℕ) × (b.checkpoint ≡ some cp) × (elem cp p.checkpoints ≡ true))
      → take_block items_open ts b p ≡ forward items_open b ts p
  unfolding take_block
  take_block_again ts b p (inl e) = ground arith
  take_block_again ts b p (inr (cp, e, m)) = ground arith

  take_block-Effect :
      (x ts : ℕ) (b : Block) (p : Poll) → Effect x b p (take_block items_open ts b p)
  take_block-Effect x ts b p = elim (Option-cases b.checkpoint) [
    | inl e ↦
        rw (take_block_again ts b p (inl e))
          (forward-Effect x b p (forward items_open b ts p) (forward-Same b ts p) (inl e))
    | inr (cp, e) ↦ elim (Bool-cases (elem cp p.checkpoints)) [
      | inl m ↦
          rw (take_block_again ts b p (inr (cp, e, m))) (
            forward-Effect x b p (forward items_open b ts p) (forward-Same b ts p) (inr (cp, e, m)))
      | inr m ↦ rw (take_block_new ts cp b p e m) (observe-Effect x cp b p e m)
    ]
  ]

  take_blocks-observed :
      (x ts : ℕ) (bs : List Block) (p : Poll)
      → p.is_closed ≡ false
      → times x (take_blocks items_open ts bs p).observed
        ≡ times x p.observed + due x bs p.checkpoints
  unfolding take_blocks
  take_blocks-observed x ts [] p o = omega arith
  take_blocks-observed x ts (b ∷ bs) p o =
      let (s, effect) = take_block-Effect x ts b p in
      let q : Poll = take_block items_open ts b p in
      let step : (if p.is_closed then p else q) ≡ q = ap (λ (c : Bool). if c then p else q) o in
      ap (λ (z : Poll). times x (take_blocks items_open ts bs z).observed) step
      ∙ take_blocks-observed x ts bs q (s ∙ o)
      ∙ effect bs

  -- As long as the items are taken, each checkpoint of a page with blocks is announced exactly once
  -- for the page, and no other is.
  pub take_page-observed :
      (x ts : ℕ) (b : Block) (bs : List Block) (p : Poll)
      → p.is_closed ≡ false
      → times x (take_page items_open ts (b ∷ bs) p).observed
        ≡ times x p.observed + (if has_checkpoint x (b ∷ bs) then 1 else 0)
  unfolding take_page
  take_page-observed x ts b bs p o = take_blocks-observed x ts (b ∷ bs) _ o ∙ ground arith
