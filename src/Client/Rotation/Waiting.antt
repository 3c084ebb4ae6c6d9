-- ===== src/Client/Rotation/Waiting.antt =====
-- Which client is next after a rate limit, and how long the call sleeps.
use huracan.Prelude.{
  ℕ, ◌+◌, ◌-◌, ◌≤◌, ◌<◌, ◌≡◌, refl, ◌∙◌, ap, ◌⊎◌, inl, inr, Bool, true, false, ◌||◌, ◌&&◌, Option,
  none, some, List, [], ◌∷◌, ltb, leb, length, if◌then◌else◌, Bool-cases, Option-cases, arith,
}
use huracan.Client.Rotation.Pools.{length-sort_clients}
use huracan.Client.Rotation.{
  Client, ClientPool, limited, Attempt, back_off, count_request, key_le, insert_client,
  sort_clients, make_client, Next, returned, again, all_limited, rotated, attempt,
}
use huracan.Client.Rotation.Order.{FirstOf, FirstOf-trans, key_le_refl, sort_clients_head}

-- Some client may be used at once.
abbrev pub any_free : List Client → Bool
any_free [] = false
any_free (c ∷ cs) = (elim c.backoff [ none ↦ true | some b ↦ false ]) || any_free cs

-- Each client is in backoff for `ms` milliseconds at least.
abbrev pub NoSooner : ℕ → ℕ → List Client → Type 0
NoSooner now ms [] = Unit {0}
NoSooner now ms (c ∷ cs) = ((t f : ℕ) → c.backoff ≡ some (t, f) → ms ≤ t - now) × NoSooner now ms cs

FirstOf-free :
    (k : Option (ℕ × ℕ)) (cs : List Client) → FirstOf k cs → any_free cs ≡ true → k ≡ none
FirstOf-free k [] h f = cc
FirstOf-free none (c ∷ cs) h f = refl
FirstOf-free (some (t, g)) (c ∷ cs) (h, hs) f = elim (Option-cases c.backoff) [
  | inl e ↦ ground (arith, simp e at h)
  | inr (b, e) ↦ FirstOf-free (some (t, g)) cs hs (simp e at f)
]

FirstOf-NoSooner :
    (now t f : ℕ) (cs : List Client) → FirstOf (some (t, f)) cs → NoSooner now (t - now) cs
FirstOf-NoSooner now t f [] h = tt
FirstOf-NoSooner now t f (c ∷ cs) (h, hs) = (
  λ u g e. (let k : leb t u ≡ true = simp e at h in ground arith),
  FirstOf-NoSooner now t f cs hs,
)

-- The clients of the pool after the one in use has been put in backoff.
abbrev pub after_limit : Attempt → ClientPool → List Client
after_limit a p = back_off a.now (count_request p.first) ∷ p.others

-- One of the clients is in backoff until the time t.
abbrev pub HasBackoff : ℕ → List Client → Type 0
HasBackoff t [] = ⊥
HasBackoff t (c ∷ cs) = ((f : ℕ) × (c.backoff ≡ some (t, f))) ⊎ HasBackoff t cs

-- What happens to the call when no client is free: a new client goes first at once, if there is a
-- configuration without one and it can be built; else the call sleeps for the rest of the backoff that
-- ends first, and its client goes first.
pub data Waits (a : Attempt) (p : ClientPool) : Next → Type 0 where
  grown :
      (q : ClientPool)
      → q.first ≡ make_client (length p.others + 1)
      → a.can_build ≡ true
      → length p.others + 1 < p.configs
      → Waits a p (again 0 q)
  slept :
      (t f : ℕ) (q : ClientPool)
      → (a.can_build && ltb (length p.others + 1) p.configs) ≡ false
      → q.first.backoff ≡ some (t, f)
      → HasBackoff t (after_limit a p)
      → NoSooner a.now (t - a.now) (after_limit a p)
      → Waits a p (again (t - a.now) q)

attempt_limited :
    (a : Attempt) (p : ClientPool)
    → a.reply ≡ limited
    → attempt a p ≡ rotated a p.configs (sort_clients (after_limit a p)) p
unfolding attempt
attempt_limited a p r = ground arith

rotated_free :
    (a : Attempt) (n : ℕ) (cs : List Client) (p : ClientPool) (d : Client) (ds : List Client)
    → cs ≡ d ∷ ds
    → d.backoff ≡ none
    → rotated a n cs p ≡ returned limited (record { configs = n; first = d; others = ds })
unfolding rotated
rotated_free a n cs p d ds e k = rw e (simp k)

rotated_waiting :
    (a : Attempt) (n : ℕ) (cs : List Client) (p : ClientPool) (d : Client) (ds : List Client)
    (t f : ℕ)
    → cs ≡ d ∷ ds
    → d.backoff ≡ some (t, f)
    → rotated a n cs p ≡ all_limited a t (record { configs = n; first = d; others = ds })
unfolding rotated
rotated_waiting a n cs p d ds t f e k = rw e (simp k)

-- If the RPC server limits the rate and another client is free, the call is not made again: it
-- returns the error, with a free client first.
pub attempt-returned :
    (a : Attempt) (p : ClientPool)
    → a.reply ≡ limited
    → any_free p.others ≡ true
    → (q : ClientPool) × (attempt a p ≡ returned limited q) × (q.first.backoff ≡ none)
attempt-returned a p r f =
    let (d, ds, e, h) = sort_clients_head (back_off a.now (count_request p.first)) p.others in
    let k : d.backoff ≡ none = FirstOf-free d.backoff p.others h.1 f in
    (
      record { configs = p.configs; first = d; others = ds },
      attempt_limited a p r ∙ rotated_free a p.configs (sort_clients (after_limit a p)) p d ds e k,
      k,
    )

any_free-insert_client :
    (c : Client) (cs : List Client) → any_free (insert_client c cs) ≡ any_free (c ∷ cs)
unfolding insert_client
any_free-insert_client c [] = refl
any_free-insert_client c (d ∷ ds) = elim (Bool-cases (key_le c.backoff d.backoff)) [
  | inl e ↦ simp e
  | inr e ↦ simp e (ground (arith, any_free-insert_client c ds))
]

any_free-sort_clients : (cs : List Client) → any_free (sort_clients cs) ≡ any_free cs
unfolding sort_clients
any_free-sort_clients [] = refl
any_free-sort_clients (c ∷ cs) =
    ground (arith, any_free-insert_client c (sort_clients cs), any_free-sort_clients cs)

HasBackoff-insert_client :
    (t : ℕ) (c : Client) (cs : List Client)
    → HasBackoff t (insert_client c cs)
    → HasBackoff t (c ∷ cs)
unfolding insert_client
HasBackoff-insert_client t c [] h = h
HasBackoff-insert_client t c (d ∷ ds) h =
    by_order (key_le c.backoff d.backoff) (HasBackoff-insert_client t c ds) h
  where
    by_order :
        (b : Bool)
        → (HasBackoff t (insert_client c ds) → HasBackoff t (c ∷ ds))
        → HasBackoff t (if b then c ∷ d ∷ ds else d ∷ insert_client c ds)
        → HasBackoff t (c ∷ d ∷ ds)
    by_order true rest h = h
    by_order false rest (inl h) = inr (inl h)
    by_order false rest (inr h) = elim (rest h) [ inl k ↦ inl k | inr k ↦ inr (inr k) ]

HasBackoff-sort_clients :
    (t : ℕ) (cs : List Client) → HasBackoff t (sort_clients cs) → HasBackoff t cs
unfolding sort_clients
HasBackoff-sort_clients t [] h = h
HasBackoff-sort_clients t (c ∷ cs) h = elim (HasBackoff-insert_client t c (sort_clients cs) h) [
  | inl k ↦ inl k
  | inr k ↦ inr (HasBackoff-sort_clients t cs k)
]

all_limited-Waits :
    (a : Attempt) (p : ClientPool) (t f : ℕ) (q : ClientPool)
    → q.configs ≡ p.configs
    → length q.others ≡ length p.others
    → q.first.backoff ≡ some (t, f)
    → HasBackoff t (after_limit a p)
    → NoSooner a.now (t - a.now) (after_limit a p)
    → Waits a p (all_limited a t q)
unfolding all_limited
all_limited-Waits a p t f q c l b k h = elim (Bool-cases (ltb (length q.others + 1) q.configs)) [
  | inr e ↦ simp e (slept t f q (ground arith) b k h)
  | inl e ↦ elim (Bool-cases a.can_build) [
    | inr u ↦ simp (e, u) (slept t f q (ground arith) b k h)
    | inl u ↦ simp (e, u) (grown _ (ap (λ (n : ℕ). make_client (n + 1)) l) u (ground arith))
  ]
]

-- If the RPC server limits the rate and no other client is free, the call is made again: at once on
-- a new client, for the first configuration without one, if that can be built; else after a sleep for
-- the rest of the backoff of a client of the pool, which goes first, and no client's backoff has a
-- shorter rest.
pub attempt-Waits :
    (a : Attempt) (p : ClientPool)
    → a.reply ≡ limited
    → any_free p.others ≡ false
    → Waits a p (attempt a p)
unfolding back_off
attempt-Waits a p r f =
    let c : Client = back_off a.now (count_request p.first) in
    let (d, ds, e, h) = sort_clients_head c p.others in
    let l : length ds ≡ length p.others =
      (let x : length (d ∷ ds) ≡ length (c ∷ p.others) =
          rw e at (length-sort_clients (c ∷ p.others)) in
        ground arith) in
    let g : any_free (d ∷ ds) ≡ false =
      (let x : any_free (d ∷ ds) ≡ any_free p.others =
          rw e at (any_free-sort_clients (after_limit a p)) in
        x ∙ f) in
    elim (Option-cases d.backoff) [
      | inl k ↦ absurd (ground arith)
      | inr ((t, u), k) ↦
          let q : ClientPool = record { configs = p.configs; first = d; others = ds } in
          let same : attempt a p ≡ all_limited a t q =
            attempt_limited a p r
            ∙ rotated_waiting a p.configs (sort_clients (after_limit a p)) p d ds t u e k in
          rw same (
            all_limited-Waits a p t u q refl l k
              (HasBackoff-sort_clients t (after_limit a p) (rw e (inl (u, k))))
              (FirstOf-NoSooner a.now t u (after_limit a p) (
                FirstOf-trans (some (t, u)) d.backoff (after_limit a p)
                  (rw k (key_le_refl (some (t, u)))) h)))
    ]
