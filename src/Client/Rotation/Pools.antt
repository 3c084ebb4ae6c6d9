-- ===== src/Client/Rotation/Pools.antt =====
-- The clients of a pool through a call: one for each of the first configurations, never two for one.
use huracan.Prelude.{
  ℕ, suc, ◌+◌, ◌≤◌, ◌<◌, ◌≡◌, refl, sym, ◌∙◌, ap, inl, inr, Option, some, List, [], ◌∷◌, ltb, ◌==◌,
  if◌then◌else◌, length, Bool-cases, Option-cases, arith,
}
use huracan.Client.Rotation.{
  Client, ClientPool, Reply, limited, answer, Attempt, make_client, back_off, count_request, key_le,
  insert_client, sort_clients, Next, returned, again, all_limited, rotated, attempt, call,
  first_client,
}

abbrev pub members : ClientPool → List Client
members p = p.first ∷ p.others

-- How many clients a configuration has.
abbrev pub clients_for : ℕ → List Client → ℕ
clients_for x [] = 0
clients_for x (c ∷ cs) = (if c.id == x then 1 else 0) + clients_for x cs

-- The first configurations, as many as there are clients, have one client each, the others none.
pub record IsPool (p : ClientPool) : Type 0 where
  pub fits : length (members p) ≤ p.configs
  pub one_each : (x : ℕ) → clients_for x (members p) ≡ (if ltb x (length (members p)) then 1 else 0)

clients_for-insert_client :
    (x : ℕ) (c : Client) (cs : List Client)
    → clients_for x (insert_client c cs) ≡ clients_for x (c ∷ cs)
unfolding insert_client
clients_for-insert_client x c [] = refl
clients_for-insert_client x c (d ∷ ds) = elim (Bool-cases (key_le c.backoff d.backoff)) [
  | inl e ↦ simp e
  | inr e ↦ simp e (omega (arith, clients_for-insert_client x c ds))
]

clients_for-sort_clients :
    (x : ℕ) (cs : List Client) → clients_for x (sort_clients cs) ≡ clients_for x cs
unfolding sort_clients
clients_for-sort_clients x [] = refl
clients_for-sort_clients x (c ∷ cs) =
    omega (arith, clients_for-insert_client x c (sort_clients cs), clients_for-sort_clients x cs)

length-insert_client :
    (c : Client) (cs : List Client) → length (insert_client c cs) ≡ suc (length cs)
unfolding insert_client
length-insert_client c [] = refl
length-insert_client c (d ∷ ds) = elim (Bool-cases (key_le c.backoff d.backoff)) [
  | inl e ↦ simp e
  | inr e ↦ simp e (omega (arith, length-insert_client c ds))
]

pub length-sort_clients : (cs : List Client) → length (sort_clients cs) ≡ length cs
unfolding sort_clients
length-sort_clients [] = refl
length-sort_clients (c ∷ cs) =
    length-insert_client c (sort_clients cs) ∙ ap suc (length-sort_clients cs)

-- The clients are the same ones, in whatever order and state.
IsPool-same :
    (p q : ClientPool)
    → q.configs ≡ p.configs
    → length (members q) ≡ length (members p)
    → ((x : ℕ) → clients_for x (members q) ≡ clients_for x (members p))
    → IsPool p
    → IsPool q
IsPool-same p q c l same v = record {
  fits = omega (arith, v.fits);
  one_each = λ x. same x ∙ v.one_each x ∙ ap (λ (n : ℕ). if ltb x n then 1 else 0) (sym l);
}

IsPool-grow :
    (p : ClientPool)
    → IsPool p
    → length (members p) < p.configs
    → IsPool (record p { first = make_client (length p.others + 1); others = members p })
unfolding make_client
IsPool-grow p v h = record { fits = omega arith; one_each = λ x. ground (arith, v.one_each x) }

abbrev Keeps : Next → Type 0
Keeps (returned r q) = IsPool q
Keeps (again ms q) = IsPool q

all_limited-Keeps : (a : Attempt) (t : ℕ) (p : ClientPool) → IsPool p → Keeps (all_limited a t p)
unfolding all_limited
all_limited-Keeps a t p v = elim (Bool-cases (ltb (length p.others + 1) p.configs)) [
  | inr e ↦ simp e v
  | inl e ↦ elim (Bool-cases a.can_build) [
    | inr b ↦ simp (e, b) v
    | inl b ↦ simp (e, b) (IsPool-grow p v (ground arith))
  ]
]

rotated-Keeps :
    (a : Attempt) (cs : List Client) (p : ClientPool)
    → length cs ≡ length (members p)
    → ((x : ℕ) → clients_for x cs ≡ clients_for x (members p))
    → IsPool p
    → Keeps (rotated a p.configs cs p)
unfolding rotated
rotated-Keeps a [] p l same v = v
rotated-Keeps a (c ∷ cs) p l same v =
    let q : ClientPool = record { configs = p.configs; first = c; others = cs } in
    let w : IsPool q = IsPool-same p q refl l same v in
    elim (Option-cases c.backoff) [
      | inl e ↦ simp e w
      | inr ((t, f), e) ↦ simp e (all_limited-Keeps a t q w)
    ]

attempt-Keeps : (a : Attempt) (p : ClientPool) → IsPool p → Keeps (attempt a p)
unfolding attempt back_off
attempt-Keeps a p v = by_reply a.reply
  where
    limited_first : Client
    limited_first = back_off a.now (count_request p.first)

    by_reply : (r : Reply) → Keeps (attempt (record a { reply = r }) p)
    by_reply (answer n) = IsPool-same p _ refl refl (λ x. refl) v
    by_reply limited =
        rotated-Keeps a (sort_clients (limited_first ∷ p.others)) p
          (length-sort_clients (limited_first ∷ p.others))
          (λ x. clients_for-sort_clients x (limited_first ∷ p.others)) v

-- A call leaves each of the first configurations with one client, however many attempts it took.
pub call-IsPool :
    (attempts : List Attempt) (p q : ClientPool) (r : Reply)
    → call attempts p ≡ some (r, q)
    → IsPool p
    → IsPool q
unfolding call
call-IsPool [] p q r h v = cc
call-IsPool (a ∷ as') p q r h v =
    by_next (attempt a p) (attempt-Keeps a p v) h (λ t e k. call-IsPool as' t q r e k)
  where
    by_next :
        (n : Next)
        → Keeps n
        → ◌≡◌ {A = Option (Reply × ClientPool)}
            (elim n [ returned s t ↦ some (s, t) | again ms t ↦ call as' t ])
            (some (r, q))
        → ((t : ClientPool) → call as' t ≡ some (r, q) → IsPool t → IsPool q)
        → IsPool q
    by_next (returned s t) k e ih = let x : t ≡ q = ground arith in rw (← x) k
    by_next (again ms t) k e ih = ih t e k

pub first_client-IsPool : (configs : ℕ) → 1 ≤ configs → IsPool (first_client configs)
unfolding first_client
first_client-IsPool configs h = record { fits = h; one_each = λ x. ground arith }
