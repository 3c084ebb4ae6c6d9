-- ===== src/Server/TypeNames/RoundTrip.antt =====
-- Types as they are written, and what parse_type makes of them.
use huracan.Prelude.{
  append-nil, append_assoc, ℕ, ◌≡◌, refl, sym, ◌∙◌, ap, Bool, true, some, List, [], ◌∷◌, ◌++◌, ◌&&◌,
  map, not, arith,
}
use huracan.Prelude.Text.{
  Text, is_whitespace, trim_start, split, split_double, drop_last, lacks, split_once-lacks,
  split_once-found, split-lacks, split-found, drop_last-append, split_double-lacks,
  split_double-found,
}
use huracan.Server.TypeNames.{parse_type}

abbrev pub print_path : Text → Text → Text → Text
print_path p m s = p ++ b':' ∷ b':' ∷ (m ++ b':' ∷ b':' ∷ s)

-- The terms, each but the first behind a comma and a space, and the closing bracket.
abbrev pub print_more : List Text → Text
print_more [] = b'>' ∷ []
print_more (g ∷ gs) = b',' ∷ b' ' ∷ (g ++ print_more gs)

abbrev pub print_generics : List Text → Text
print_generics [] = []
print_generics (g ∷ gs) = b'<' ∷ (g ++ print_more gs)

abbrev pub print_type : Text → Text → Text → List Text → Text
print_type p m s gs = print_path p m s ++ print_generics gs

-- The text starts with no white space.
abbrev pub is_trimmed : Text → Bool
is_trimmed [] = true
is_trimmed (c ∷ s) = not (is_whitespace c)

-- A name has no colon and no bracket, and a term no comma and no space at its start.
abbrev pub is_name : Text → Bool
is_name s = lacks b':' s && lacks b'<' s

abbrev pub are_terms : List Text → Bool
are_terms [] = true
are_terms (g ∷ gs) = lacks b',' g && is_trimmed g && are_terms gs

lacks-append : (c : ℕ) (s t : Text) → lacks c (s ++ t) ≡ (lacks c s && lacks c t)
lacks-append c [] t = refl
lacks-append c (a ∷ s) t = ground (arith, lacks-append c s t)

trim_start-trimmed : (s : Text) → is_trimmed s ≡ true → trim_start s ≡ s
trim_start-trimmed [] h = refl
trim_start-trimmed (c ∷ s) h = ground arith

-- The terms without the bracket.
abbrev inner_more : List Text → Text
inner_more [] = []
inner_more (g ∷ gs) = b',' ∷ b' ' ∷ (g ++ inner_more gs)

print_more-inner : (gs : List Text) → print_more gs ≡ inner_more gs ++ b'>' ∷ []
print_more-inner [] = refl
print_more-inner (g ∷ gs) =
    ap (λ z. b',' ∷ b' ' ∷ (g ++ z)) (print_more-inner gs)
    ∙ ap (λ z. b',' ∷ b' ' ∷ z) (sym (append_assoc g (inner_more gs) (b'>' ∷ [])))

split-inner :
    (g : Text) (gs : List Text)
    → lacks b',' g ≡ true
    → are_terms gs ≡ true
    → map trim_start (split b',' (g ++ inner_more gs)) ≡ trim_start g ∷ gs
split-inner g [] h k =
    ap (λ z. map trim_start (split b',' z)) (append-nil g)
    ∙ ap (map trim_start) (split-lacks b',' g h)
split-inner g (i ∷ is) h k =
    let lacking : lacks b',' i ≡ true = ground arith in
    let trimmed : trim_start i ≡ i = trim_start-trimmed i (ground arith) in
    let more : are_terms is ≡ true = ground arith in
    let rest = split-inner (b' ' ∷ i) is lacking more in
    ap (map trim_start) (split-found b',' g (b' ' ∷ (i ++ inner_more is)) h)
    ∙ ap (λ z. trim_start g ∷ z) (rest ∙ ap (λ z. z ∷ is) trimmed)

split_double-path :
    (p m s : Text)
    → is_name p ≡ true
    → is_name m ≡ true
    → is_name s ≡ true
    → split_double b':' (print_path p m s) ≡ p ∷ m ∷ s ∷ []
split_double-path p m s hp hm hs =
    split_double-found b':' p (m ++ b':' ∷ b':' ∷ s) (ground arith)
    ∙ ap (λ z. p ∷ z)
        (split_double-found b':' m s (ground arith)
          ∙ ap (λ z. m ∷ z) (split_double-lacks b':' s (ground arith)))

lacks-path :
    (p m s : Text)
    → is_name p ≡ true
    → is_name m ≡ true
    → is_name s ≡ true
    → lacks b'<' (print_path p m s) ≡ true
lacks-path p m s hp hm hs =
    let outer = lacks-append b'<' p (b':' ∷ b':' ∷ (m ++ b':' ∷ b':' ∷ s)) in
    let inner = lacks-append b'<' m (b':' ∷ b':' ∷ s) in ground arith

-- The type of a struct, written as `package::module::struct` with its type arguments in angle brackets,
-- separated by a comma and a space, is taken apart into these parts; where the three names have no
-- colon and no `<`, and each type argument has no comma and no white space at its start. A type
-- argument with arguments of its own is kept whole if it has one of them only.
pub parse_type-print_type :
    (p m s : Text) (gs : List Text)
    → is_name p ≡ true
    → is_name m ≡ true
    → is_name s ≡ true
    → are_terms gs ≡ true
    → parse_type (print_type p m s gs)
      ≡ some (record {
        full = print_type p m s gs;
        package_ = p;
        module_ = m;
        struct_ = s;
        generics = gs;
      })
unfolding parse_type
parse_type-print_type p m s [] hp hm hs hg =
    let whole : print_type p m s [] ≡ print_path p m s = append-nil (print_path p m s) in
    let bare : parse_type (print_path p m s)
        ≡ some (record {
          full = print_path p m s;
          package_ = p;
          module_ = m;
          struct_ = s;
          generics = [];
        }) =
      rw
        (
          parse_type,
          split_once-lacks b'<' (print_path p m s) (lacks-path p m s hp hm hs),
          split_double-path p m s hp hm hs,
        )
        refl in
    rw whole bare
parse_type-print_type p m s (g ∷ gs) hp hm hs hg =
    let inner : Text = g ++ inner_more gs in
    let lacking : lacks b',' g ≡ true = ground arith in
    let trimmed : trim_start g ≡ g = trim_start-trimmed g (ground arith) in
    let more : are_terms gs ≡ true = ground arith in
    let closed : g ++ print_more gs ≡ inner ++ b'>' ∷ [] =
      ap (λ z. g ++ z) (print_more-inner gs) ∙ sym (append_assoc g (inner_more gs) (b'>' ∷ [])) in
    let terms : drop_last (g ++ print_more gs) ≡ some inner =
      ap drop_last closed ∙ drop_last-append inner b'>' (omega arith) in
    rw
      (
        parse_type,
        split_once-found b'<' (print_path p m s) (g ++ print_more gs) (lacks-path p m s hp hm hs),
        terms,
        split_double-path p m s hp hm hs,
        split-inner g gs lacking more,
        trimmed,
      )
      refl
