-- ===== src/Prelude/Text.antt =====
-- Texts as the code points of their characters, with the operations of Rust's `str` that the program
-- uses. The order of the code points is the order of the bytes in UTF-8.
use Prim.Native.Char.{code}
use Prim.Native.String.{String}
use Prim.Native.Nat.{ℕ, ◌<◌}
use mathlib.Core.Path.{◌≡◌, refl}
use mathlib.Core.Bool.{Bool, true, false, not, ◌&&◌, ◌||◌}
use mathlib.Core.Option.{Option, none, some}
use mathlib.Core.List.{List, [], ◌∷◌, ◌++◌}
use native.Mathlib.Omega.{arith}
use huracan.Prelude.Tests.{ltb, leb, ◌==◌, if◌then◌else◌}

abbrev pub Text : Type 0
Text = List ℕ

abbrev pub text : String → Text
text String.[] = []
text (String.◌∷◌ c s) = code c ∷ text s

abbrev pub same_text : Text → Text → Bool
same_text [] [] = true
same_text (c ∷ s) (d ∷ t) = c == d && same_text s t
same_text _ _ = false

pub same_text_iff : (s t : Text) → (same_text s t ≡ true → s ≡ t) × (s ≡ t → same_text s t ≡ true)
same_text_iff [] [] = (λ h. refl, λ h. refl)
same_text_iff [] (d ∷ t) = (λ h. cc, λ h. cc)
same_text_iff (c ∷ s) [] = (λ h. cc, λ h. cc)
same_text_iff (c ∷ s) (d ∷ t) =
    let (to, from) = same_text_iff s t in (λ h. ground (arith, to), λ h. ground (arith, from))

abbrev pub less_text : Text → Text → Bool
less_text s [] = false
less_text [] (d ∷ t) = true
less_text (c ∷ s) (d ∷ t) = ltb c d || (c == d && less_text s t)

-- `char::is_whitespace`: the property `White_Space` of Unicode.
abbrev pub is_whitespace : ℕ → Bool
is_whitespace c =
    (leb 9 c && leb c 13)
    || c == 32
    || c == 133
    || c == 160
    || c == 5760
    || (leb 8192 c && leb c 8202)
    || c == 8232
    || c == 8233
    || c == 8239
    || c == 8287
    || c == 12288

abbrev pub trim_start : Text → Text
trim_start [] = []
trim_start (c ∷ s) = let rest = trim_start s in if is_whitespace c then rest else c ∷ s

-- `str::split_once` at a character.
unfoldable pub split_once : ℕ → Text → Option (Text × Text)
split_once sep [] = none
split_once sep (c ∷ s) =
    let rest = split_once sep s in
    if c == sep then some ([], s) else elim rest [ none ↦ none | some (s, t) ↦ some (c ∷ s, t) ]

-- A character in front of the first part.
abbrev pub prepend : ℕ → List Text → List Text
prepend c [] = (c ∷ []) ∷ []
prepend c (p ∷ ps) = (c ∷ p) ∷ ps

-- `str::split` at a character, and at a character that comes twice.
unfoldable pub split : ℕ → Text → List Text
split sep [] = [] ∷ []
split sep (c ∷ s) = let rest = split sep s in if c == sep then [] ∷ rest else prepend c rest

unfoldable pub split_double : ℕ → Text → List Text
split_double sep [] = [] ∷ []
split_double sep (c ∷ []) = (c ∷ []) ∷ []
split_double sep (c ∷ d ∷ s) = elim (c == sep && d == sep) [
  | true ↦ [] ∷ split_double sep s
  | false ↦ prepend c (split_double sep (d ∷ s))
]

-- `&s[..s.len() - 1]`, which panics on the empty text and inside of a character.
unfoldable pub drop_last : Text → Option Text
drop_last [] = none
drop_last (c ∷ []) = if ltb c 128 then some [] else none
drop_last (c ∷ d ∷ s) = elim (drop_last (d ∷ s)) [ none ↦ none | some t ↦ some (c ∷ t) ]

-- Whether a character does not occur.
abbrev pub lacks : ℕ → Text → Bool
lacks sep [] = true
lacks sep (c ∷ s) = not (c == sep) && lacks sep s

pub split_once-lacks : (sep : ℕ) (s : Text) → lacks sep s ≡ true → split_once sep s ≡ none
unfolding split_once
split_once-lacks sep [] h = refl
split_once-lacks sep (c ∷ s) h = ground (arith, split_once-lacks sep s)

pub split_once-found :
    (sep : ℕ) (s t : Text) → lacks sep s ≡ true → split_once sep (s ++ sep ∷ t) ≡ some (s, t)
unfolding split_once
split_once-found sep [] t h = ground arith
split_once-found sep (c ∷ s) t h = ground (arith, split_once-found sep s t)

pub split-lacks : (sep : ℕ) (s : Text) → lacks sep s ≡ true → split sep s ≡ s ∷ []
unfolding split
split-lacks sep [] h = refl
split-lacks sep (c ∷ s) h = ground (arith, split-lacks sep s)

pub split-found :
    (sep : ℕ) (s t : Text) → lacks sep s ≡ true → split sep (s ++ sep ∷ t) ≡ s ∷ split sep t
unfolding split
split-found sep [] t h = ground arith
split-found sep (c ∷ s) t h = ground (arith, split-found sep s t)

pub drop_last-append : (s : Text) (c : ℕ) → c < 128 → drop_last (s ++ c ∷ []) ≡ some s
unfolding drop_last
drop_last-append [] c h = ground arith
drop_last-append (a ∷ []) c h = ground arith
drop_last-append (a ∷ b ∷ s) c h = ground (arith, drop_last-append (b ∷ s) c h)

pub split_double-lacks : (sep : ℕ) (s : Text) → lacks sep s ≡ true → split_double sep s ≡ s ∷ []
unfolding split_double
split_double-lacks sep [] h = refl
split_double-lacks sep (c ∷ []) h = refl
split_double-lacks sep (c ∷ d ∷ s) h = ground (arith, split_double-lacks sep (d ∷ s))

pub split_double-found :
    (sep : ℕ) (s t : Text)
    → lacks sep s ≡ true
    → split_double sep (s ++ sep ∷ sep ∷ t) ≡ s ∷ split_double sep t
unfolding split_double
split_double-found sep [] t h = ground arith
split_double-found sep (c ∷ []) t h = ground (arith, split_double-found sep [] t refl)
split_double-found sep (c ∷ d ∷ s) t h = ground (arith, split_double-found sep (d ∷ s) t)
