-- ===== src/Client/Rotation/Order.antt =====
-- The order of the clients after a rate limit.
use huracan.Prelude.{
  ℕ, ◌≡◌, refl, inl, inr, true, false, Option, none, some, List, [], ◌∷◌, Bool-cases, arith,
}
use huracan.Client.Rotation.{Client, key_le, insert_client, sort_clients}

-- The key comes before those of all the clients.
abbrev pub FirstOf : Option (ℕ × ℕ) → List Client → Type 0
FirstOf k [] = Unit {0}
FirstOf k (c ∷ cs) = (key_le k c.backoff ≡ true) × FirstOf k cs

abbrev IsSorted : List Client → Type 0
IsSorted [] = Unit {0}
IsSorted (c ∷ cs) = FirstOf c.backoff cs × IsSorted cs

key_le_trans : (j k l : Option (ℕ × ℕ)) → key_le j k ≡ true → key_le k l ≡ true → key_le j l ≡ true
key_le_trans none k l p q = refl
key_le_trans (some (t, f)) none l p q = cc
key_le_trans (some (t, f)) (some (u, g)) none p q = cc
key_le_trans (some (t, f)) (some (u, g)) (some (v, h)) p q = ground arith

key_le_total : (j k : Option (ℕ × ℕ)) → key_le j k ≡ false → key_le k j ≡ true
key_le_total none k p = cc
key_le_total (some (t, f)) none p = refl
key_le_total (some (t, f)) (some (u, g)) p = ground arith

pub FirstOf-trans :
    (j k : Option (ℕ × ℕ)) (cs : List Client) → key_le j k ≡ true → FirstOf k cs → FirstOf j cs
FirstOf-trans j k [] p h = tt
FirstOf-trans j k (c ∷ cs) p (h, hs) = (key_le_trans j k c.backoff p h, FirstOf-trans j k cs p hs)

FirstOf-insert_client :
    (k : Option (ℕ × ℕ)) (c : Client) (cs : List Client)
    → key_le k c.backoff ≡ true
    → FirstOf k cs
    → FirstOf k (insert_client c cs)
unfolding insert_client
FirstOf-insert_client k c [] p h = (p, h)
FirstOf-insert_client k c (d ∷ ds) p (h, hs) = elim (Bool-cases (key_le c.backoff d.backoff)) [
  | inl e ↦ simp e (p, (h, hs))
  | inr e ↦ simp e (h, FirstOf-insert_client k c ds p hs)
]

insert_client-IsSorted :
    (c : Client) (cs : List Client) → IsSorted cs → IsSorted (insert_client c cs)
unfolding insert_client
insert_client-IsSorted c [] s = (tt, tt)
insert_client-IsSorted c (d ∷ ds) (h, s) = elim (Bool-cases (key_le c.backoff d.backoff)) [
  | inl e ↦ simp e ((refl, FirstOf-trans c.backoff d.backoff ds e h), (h, s))
  | inr e ↦ simp e (
    FirstOf-insert_client d.backoff c ds (key_le_total c.backoff d.backoff e) h,
    insert_client-IsSorted c ds s,
  )
]

sort_clients-IsSorted : (cs : List Client) → IsSorted (sort_clients cs)
unfolding sort_clients
sort_clients-IsSorted [] = tt
sort_clients-IsSorted (c ∷ cs) =
    insert_client-IsSorted c (sort_clients cs) (sort_clients-IsSorted cs)

-- What comes before the sorted clients comes before the clients.
insert_client-FirstOf :
    (k : Option (ℕ × ℕ)) (c : Client) (cs : List Client)
    → FirstOf k (insert_client c cs)
    → FirstOf k (c ∷ cs)
unfolding insert_client
insert_client-FirstOf k c [] h = h
insert_client-FirstOf k c (d ∷ ds) h = elim (Bool-cases (key_le c.backoff d.backoff)) [
  | inl e ↦ simp e at h
  | inr e ↦
      let (p, hs) = simp e at h in let (q, rest) = insert_client-FirstOf k c ds hs in (q, (p, rest))
]

sort_clients-FirstOf :
    (k : Option (ℕ × ℕ)) (cs : List Client) → FirstOf k (sort_clients cs) → FirstOf k cs
unfolding sort_clients
sort_clients-FirstOf k [] h = tt
sort_clients-FirstOf k (c ∷ cs) h =
    let (p, hs) = insert_client-FirstOf k c (sort_clients cs) h in (p, sort_clients-FirstOf k cs hs)

pub key_le_refl : (k : Option (ℕ × ℕ)) → key_le k k ≡ true
key_le_refl none = refl
key_le_refl (some (t, f)) = ground arith

insert_client_shape :
    (c : Client) (cs : List Client)
    → (d : Client) × (ds : List Client) × (insert_client c cs ≡ d ∷ ds)
unfolding insert_client
insert_client_shape c [] = (c, [], refl)
insert_client_shape c (d ∷ ds) = elim (Bool-cases (key_le c.backoff d.backoff)) [
  | inl e ↦ (c, d ∷ ds, simp e)
  | inr e ↦ (d, insert_client c ds, simp e)
]

-- The sorted clients have a head, with a key before that of each client.
pub sort_clients_head :
    (c : Client) (cs : List Client)
    → (d : Client) × (ds : List Client) × (sort_clients (c ∷ cs) ≡ d ∷ ds)
      × FirstOf d.backoff (c ∷ cs)
unfolding sort_clients
sort_clients_head c cs =
    let (d, ds, e) = insert_client_shape c (sort_clients cs) in
    let s : IsSorted (d ∷ ds) = rw e at (sort_clients-IsSorted (c ∷ cs)) in
    (
      d,
      ds,
      e,
      sort_clients-FirstOf d.backoff (c ∷ cs)
          (unfold sort_clients in rw e (key_le_refl d.backoff, s.0)),
    )
