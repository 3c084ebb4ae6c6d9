-- ===== src/Client/Rotation/Delay.antt =====
-- How long a client is left alone after a rate limit.
use huracan.Prelude.{
  ℕ, zero, suc, ◌*◌, ◌^◌, ◌≤◌, ◌<◌, ◌≡◌, refl, Bool, true, false, inl, inr, Bool-cases, leb, ◌==◌,
  min, if◌then◌else◌, arith,
}
use huracan.Client.Rotation.{backoff_millis}

-- The test succeeds at the factors before the given one.
passes_before : (factor_test : ℕ → Bool) → ℕ → Bool
passes_before factor_test zero = true
passes_before factor_test (suc k) = if factor_test k then passes_before factor_test k else false

passes_at :
    (factor_test : ℕ → Bool) (k f : ℕ)
    → f < k
    → passes_before factor_test k ≡ true
    → factor_test f ≡ true
unfolding passes_before
passes_at factor_test zero f before t = absurd (omega arith)
passes_at factor_test (suc k) f before t = elim (Bool-cases (factor_test k)) [
  | inr e ↦ ground arith
  | inl e ↦ elim (Bool-cases (f == k)) [
    | inl same ↦ ground arith
    | inr other ↦ passes_at factor_test k f (ground arith) (simp e at t)
  ]
]

-- What the source means: the delay doubles from 250 ms, up to 10 s.
abbrev pub meant : ℕ → ℕ
meant f = min (2 ^ f * 250) 10000

abbrev as_found : ℕ → Bool
as_found f =
    if leb f 56
    then backoff_millis f == meant f
    else if leb 63 f
    then backoff_millis f == 0
    else true

delay_table : passes_before as_found 256 ≡ true
unfolding passes_before backoff_millis
delay_table = refl

-- Up to the 57th rate limit in a row the delay is 250 ms doubled each time, and at most 10 s. From
-- the 64th on, up to the 256th, at which the u8 factor starts again, it is 0.
pub backoff_millis_lem :
    (f : ℕ)
    → f < 256
    → (f ≤ 56 → backoff_millis f ≡ min (2 ^ f * 250) 10000) × (63 ≤ f → backoff_millis f ≡ 0)
backoff_millis_lem f h =
    let t : as_found f ≡ true = passes_at as_found 256 f h delay_table in
    (λ low. ground arith, λ high. ground arith)
