-- ===== src/Etl/Scan/Rules.antt =====
-- A rule for the loops of `do_scan` over blocks and changes: what one object keeps, they keep.
use huracan.Prelude.{
  ℕ, ◌≡◌, inl, inr, Bool, false, Option, some, List, [], ◌∷◌, if◌then◌else◌, Bool-cases,
  Option-cases,
}
use huracan.Client.Changes.{ObjectChange, parse_change}
use huracan.Etl.Types.{Block, KeyStore}
use huracan.Etl.Scan.{Env, Scan, emit_object, emit_change, emit_changes, emit_block, emit_blocks}

module _ {ℓ} (store : KeyStore) (env : Env) (cp ts : ℕ) (R : Scan store → Scan store → Type ℓ)
    (same : (s : Scan store) → R s s) (chain : (s t u : Scan store) → R s t → R t u → R s u)
    (digest : (s : Scan store) (d : Option ℕ) → R s (record s { tx_digest_once = d }))
    (object : (s : Scan store) (t : Option ℕ) (p : ℕ × ℕ × Bool)
      → s.is_closed ≡ false
      → R s (emit_object store env cp t ts p s)) where
  abbrev unless_closed : (Scan store → Scan store) → Scan store → Scan store
  unless_closed f s = if s.is_closed then s else f s

  rule_unless :
      (f : Scan store → Scan store) (s : Scan store)
      → (s.is_closed ≡ false → R s (f s))
      → R s (unless_closed f s)
  rule_unless f s h = elim (Bool-cases s.is_closed) [
    | inl e ↦ simp e (same s)
    | inr e ↦ simp e (h e)
  ]

  rule_change :
      (t : Option ℕ) (c : ObjectChange) (s : Scan store)
      → s.is_closed ≡ false
      → R s (emit_change store env cp t ts c s)
  unfolding emit_change
  rule_change t c s o = elim (Option-cases (parse_change c)) [
    | inl e ↦ rw (e, emit_change) (same s)
    | inr (p, e) ↦ rw (e, emit_change) (object s t p o)
  ]

  rule_changes :
      (t : Option ℕ) (cs : List ObjectChange) (s : Scan store)
      → R s (emit_changes store env cp t ts cs s)
  unfolding emit_changes
  rule_changes t [] s = same s
  rule_changes t (c ∷ cs) s =
      let f = emit_change store env cp t ts c in
      chain s (unless_closed f s) _ (rule_unless f s (rule_change t c s))
        (rule_changes t cs (unless_closed f s))

  pub emit_block_rule : (b : Block) (s : Scan store) → R s (emit_block store env cp ts b s)
  unfolding emit_block
  emit_block_rule b s = elim (Option-cases b.object_changes) [
    | inl e ↦ rw e (same s)
    | inr (cs, e) ↦
        let s' = record s { tx_digest_once = some b.digest } in
        rw e (chain s s' _ (digest s (some b.digest)) (rule_changes b.timestamp_ms cs s'))
  ]

  pub emit_blocks_rule : (bs : List Block) (s : Scan store) → R s (emit_blocks store env cp ts bs s)
  unfolding emit_blocks
  emit_blocks_rule [] s = same s
  emit_blocks_rule (b ∷ bs) s =
      let f = emit_block store env cp ts b in
      chain s (unless_closed f s) _ (rule_unless f s (λ o. emit_block_rule b s))
        (emit_blocks_rule bs (unless_closed f s))
