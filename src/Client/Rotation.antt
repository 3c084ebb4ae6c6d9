-- ===== src/Client/Rotation.antt =====
-- macros/src/lib.rs: `with_client_rotation`, which wraps each RPC call of the `ClientPool` in
-- main/src/client.rs. An execution is given by what happens at each attempt: the reply, the time, and
-- whether a further client can be built. Arithmetic on u64 and u8 wraps, as in a release build.
pub mod Delay
pub mod Pools
pub mod Order
pub mod Waiting
use huracan.Prelude.{
  ℕ, ◌+◌, ◌-◌, ◌*◌, ◌%◌, ◌^◌, Bool, true, false, Option, none, some, List, [], ◌∷◌, leb, ltb,
  if◌then◌else◌, length, min,
}

-- A client: the number of its configuration, its backoff (the time it ends, and the exponent of the
-- next one), and its requests.
pub record Client : Type 0 where
  pub id : ℕ
  pub backoff : Option (ℕ × ℕ)
  pub reqs : ℕ

-- The pool: how many configurations there are, the client in use, and the others in their order.
pub record ClientPool : Type 0 where
  pub configs : ℕ
  pub first : Client
  pub others : List Client

-- `Clone` for `Client` resets backoff and requests.
pub clone : Client → Client
clone c = record c { backoff = none; reqs = 0 }

pub make_client : ℕ → Client
make_client id = record { id = id; backoff = none; reqs = 0 }

-- A reply of the RPC server: one with status 429, or any other, success or not.
pub data Reply : Type 0 where
  limited : Reply
  answer : ℕ → Reply

pub record Attempt : Type 0 where
  pub reply : Reply
  pub now : ℕ
  pub can_build : Bool

-- The pool with the client of the first configuration.
unfoldable pub first_client : ℕ → ClientPool
unfolding make_client
first_client configs = record { configs = configs; first = make_client 0; others = [] }

-- `ClientPool::new`, which fails if `make_client(0)` fails.
unfoldable pub new : (can_build : Bool) → ℕ → Option ClientPool
new can_build configs = if can_build then some (first_client configs) else none

-- `(2u64.pow(f as u32) * 250).min(10_000)`
unfoldable pub backoff_millis : ℕ → ℕ
backoff_millis f = min (2 ^ f % 2 ^ 64 * 250 % 2 ^ 64) 10000

-- The factor f of the backoff, 0 if there is none.
abbrev pub factor : Client → ℕ
factor c = elim c.backoff [ none ↦ 0 | some (t, f) ↦ f ]

pub back_off : ℕ → Client → Client
back_off now c = record c { backoff = some (now + backoff_millis (factor c), (factor c + 1) % 256) }

-- The order of the keys `c.backoff.map(|(t, _)| t)`: no backoff comes first.
abbrev pub key_le : Option (ℕ × ℕ) → Option (ℕ × ℕ) → Bool
key_le none d = true
key_le (some (t, f)) none = false
key_le (some (t, f)) (some (u, g)) = leb t u

-- `sort_by_key`, which is stable: equal keys keep their order.
pub insert_client : Client → List Client → List Client
insert_client c [] = c ∷ []
insert_client c (d ∷ ds) = if key_le c.backoff d.backoff then c ∷ d ∷ ds else d ∷ insert_client c ds

pub sort_clients : List Client → List Client
unfolding insert_client
sort_clients [] = []
sort_clients (c ∷ cs) = insert_client c (sort_clients cs)

-- What an attempt comes to: the reply is returned, or the call is made again after a sleep.
pub data Next : Type 0 where
  returned : Reply → ClientPool → Next
  again : (slept : ℕ) → ClientPool → Next

-- All clients are in backoff, the first until `wait_until`: a new one goes first, if there is a
-- configuration left and it can be built. The difference of instants stops at 0.
pub all_limited : Attempt → ℕ → ClientPool → Next
unfolding make_client
all_limited a wait_until p =
    let ix : ℕ = length p.others + 1 in
    if ltb ix p.configs
    then if a.can_build
      then again 0 (record p { first = make_client ix; others = p.first ∷ p.others })
      else again (wait_until - a.now) p
    else again (wait_until - a.now) p

-- After the clients are sorted.
pub rotated : Attempt → ℕ → List Client → ClientPool → Next
unfolding all_limited
rotated a configs [] p = returned limited p
rotated a configs (c ∷ cs) p =
    let q : ClientPool = record { configs = configs; first = c; others = cs } in
    elim c.backoff [ none ↦ returned limited q | some (wait_until, f) ↦ all_limited a wait_until q ]

abbrev pub count_request : Client → Client
count_request c = record c { reqs = c.reqs + 1 }

-- One pass through the body of the macro.
unfoldable pub attempt : Attempt → ClientPool → Next
unfolding back_off sort_clients rotated
attempt a p = elim a.reply [
  | answer r ↦
      returned (answer r) (record p { first = record (count_request p.first) { backoff = none } })
  | limited ↦
      rotated a p.configs (sort_clients (back_off a.now (count_request p.first) ∷ p.others)) p
]

-- The whole call; `none` if it is still running after these attempts.
unfoldable pub call : List Attempt → ClientPool → Option (Reply × ClientPool)
unfolding attempt
call [] p = none
call (a ∷ as') p = elim (attempt a p) [ returned r q ↦ some (r, q) | again ms q ↦ call as' q ]
