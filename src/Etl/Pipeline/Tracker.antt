-- ===== src/Etl/Pipeline/Tracker.antt =====
-- What a pipeline promises about checkpoints, whatever its channels and workers do.
use huracan.Prelude.{ℕ, ◌+◌, ◌≤◌, ◌≡◌, ◌∙◌, ◌⊎◌, inl, inr, Bool-cases, false, ◌==◌, arith}

-- How many items of a checkpoint are loaded, and how often it is saved.
pub record Tracker : Type 0 where
  pub loaded : ℕ → ℕ
  pub saved : ℕ → ℕ

abbrev pub SameAt : ℕ → Tracker → Tracker → Type 0
SameAt x a b = (b.loaded x ≡ a.loaded x) × (b.saved x ≡ a.saved x)

module _ (produced : ℕ → ℕ) where
  -- At a checkpoint one more item may be loaded; and it may be saved, for the first time, when as
  -- many items are loaded as were produced for it. Other checkpoints stay as they are.
  pub data Tracks (a b : Tracker) : Type 0 where
    stay : ((x : ℕ) → 1 ≤ x → SameAt x a b) → Tracks a b
    move :
        (y : ℕ)
        → ((x : ℕ) → 1 ≤ x → (y == x) ≡ false → SameAt x a b)
        → (b.loaded y ≡ a.loaded y) ⊎ (b.loaded y ≡ a.loaded y + 1)
        → (b.saved y ≡ a.saved y) ⊎ ((a.saved y ≡ 0) × (b.saved y ≡ 1) × (b.loaded y ≡ produced y))
        → b.loaded y ≤ produced y
        → Tracks a b

  -- Saved once at most, and only when all is loaded.
  pub record IsSafe (x : ℕ) (a : Tracker) : Type 0 where
    pub within : a.loaded x ≤ produced x
    pub saved_once : (a.saved x ≡ 0) ⊎ ((a.saved x ≡ 1) × (a.loaded x ≡ produced x))

  SameAt-IsSafe : (x : ℕ) (a b : Tracker) → SameAt x a b → IsSafe x a → IsSafe x b
  SameAt-IsSafe x a b (l, s) h = record {
    within = omega (arith, l, h.within);
    saved_once = elim h.saved_once [ inl z ↦ inl (s ∙ z) | inr (z, w) ↦ inr (s ∙ z, l ∙ w) ];
  }

  move-IsSafe :
      (x : ℕ) (a b : Tracker)
      → (b.loaded x ≡ a.loaded x) ⊎ (b.loaded x ≡ a.loaded x + 1)
      → (b.saved x ≡ a.saved x) ⊎ ((a.saved x ≡ 0) × (b.saved x ≡ 1) × (b.loaded x ≡ produced x))
      → b.loaded x ≤ produced x
      → IsSafe x a
      → IsSafe x b
  move-IsSafe x a b one save fits h = record {
    within = fits;
    saved_once = elim save [
      | inr (z, s, e) ↦ inr (s, e)
      | inl s ↦ elim h.saved_once [ inl z ↦ inl (s ∙ z) | inr (z, w) ↦ inr (s ∙ z, ground arith) ]
    ];
  }

  pub Tracks-IsSafe : (x : ℕ) (a b : Tracker) → 1 ≤ x → Tracks a b → IsSafe x a → IsSafe x b
  Tracks-IsSafe x a b real (stay same) h = SameAt-IsSafe x a b (same x real) h
  Tracks-IsSafe x a b real (move y others one save fits) h = elim (Bool-cases (y == x)) [
    | inr other ↦ SameAt-IsSafe x a b (others x real other) h
    | inl own ↦
        (let e : y ≡ x = ground arith in
          move-IsSafe x a b (rw e at one) (rw e at save) (rw e at fits) h)
  ]
