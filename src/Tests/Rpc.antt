-- ===== src/Tests/Rpc.antt =====
-- The RPC client on concrete replies.
use Prim.Native.String.{String}
use text.Mathlib.Text.{◌==◌}
use huracan.Prelude.{
  ◌*◌, ◌^◌, ◌≤◌, ◌≡◌, refl, true, false, none, some, [], ◌∷◌, min, if◌then◌else◌, arith,
}
use huracan.Conf.{Whitelist, Blacklist}
use huracan.Client.Objects.{
  ObjectTypes, ObjectData, ObjectResponse, indexed, parse_get_object_response,
  check_obj_type_from_string_vec,
}
use huracan.Client.Objects.Policy.{parse_get_object_response_policy}
use huracan.Client.Rotation.{
  Client, ClientPool, Attempt, limited, answer, first_client, attempt, call, backoff_millis,
  returned,
}
use huracan.Client.Rotation.Delay.{backoff_millis_lem}
use huracan.Client.Rotation.Pools.{IsPool, call-IsPool, first_client-IsPool}
use huracan.Client.Rotation.Waiting.{attempt-returned, attempt-Waits, Waits}

-- Every string but the empty one is an object type.
abbrev pub sample_types : ObjectTypes
sample_types = record {
  ObjectType = String;
  from_str = λ s. if s == "" then none else some s;
  same = λ a b. a == b;
}

abbrev pub coin : ObjectData sample_types
coin = record { version = 3; object_type = some "0x2::coin::Coin"; bson = 8 ∷ 9 ∷ [] }

abbrev pub coin_response : ObjectResponse sample_types
coin_response = record { error = none; object = some coin }

abbrev pub coins_only : Whitelist
coins_only = record {
  enabled = true;
  packages = some ("0x2::kiosk::Kiosk" ∷ "0x2::coin::Coin" ∷ []);
}

abbrev pub nothing_barred : Blacklist
nothing_barred = record { enabled = false; packages = none }

parse_get_object_response_policy_example :
    parse_get_object_response sample_types coins_only nothing_barred 7 coin_response
    ≡ ([], indexed 3 (8 ∷ 9 ∷ []))
parse_get_object_response_policy_example =
    parse_get_object_response_policy sample_types coins_only nothing_barred 7 coin_response coin
      "0x2::coin::Coin" (("0x2::kiosk::Kiosk", refl), (("0x2::coin::Coin", refl), tt)) tt refl refl
      refl

coin_is_indexed :
    (parse_get_object_response sample_types coins_only nothing_barred 7 coin_response).1
    ≡ indexed 3 (8 ∷ 9 ∷ [])
unfolding parse_get_object_response check_obj_type_from_string_vec
coin_is_indexed = refl

abbrev limit : Attempt
limit = record { reply = limited; now = 1000; can_build = true }

abbrev replied : Attempt
replied = record { reply = answer 5; now = 1000; can_build = true }

-- The first of two configurations is limited, and the second one takes the call.
abbrev after_call : ClientPool
unfolding call first_client
after_call = elim (call (limit ∷ replied ∷ []) (first_client 2)) [
  | some (r, q) ↦ q
  | none ↦ first_client 2
]

called : call (limit ∷ replied ∷ []) (first_client 2) ≡ some (answer 5, after_call)
unfolding call first_client after_call
called = refl

call-IsPool_example : IsPool after_call
call-IsPool_example =
    call-IsPool (limit ∷ replied ∷ []) (first_client 2) after_call (answer 5) called
      (first_client-IsPool 2 (omega arith))

backoff_millis_lem_example :
    (3 ≤ 56 → backoff_millis 3 ≡ min (2 ^ 3 * 250) 10000) × (63 ≤ 3 → backoff_millis 3 ≡ 0)
backoff_millis_lem_example = backoff_millis_lem 3 (omega arith)

-- The only client of a net is limited, and no other can be built.
abbrev no_more : Attempt
no_more = record { reply = limited; now = 1000; can_build = false }

attempt-Waits_example : Waits no_more (first_client 2) (attempt no_more (first_client 2))
unfolding first_client
attempt-Waits_example = attempt-Waits no_more (first_client 2) refl refl

abbrev rested : Client
rested = record { id = 1; backoff = none; reqs = 4 }

abbrev pair : ClientPool
pair = record {
  configs = 2;
  first = record { id = 0; backoff = none; reqs = 9 };
  others = rested ∷ [];
}

attempt-returned_example :
    (q : ClientPool) × (attempt limit pair ≡ returned limited q) × (q.first.backoff ≡ none)
attempt-returned_example = attempt-returned limit pair refl refl
