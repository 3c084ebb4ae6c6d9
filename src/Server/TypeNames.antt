-- ===== src/Server/TypeNames.antt =====
-- server/src/main.rs: the part of parse that splits the type of an object.
pub mod RoundTrip
use huracan.Prelude.{ℕ, Option, none, some, List, [], ◌∷◌, ◌++◌, map}
use huracan.Prelude.Text.{Text, text, trim_start, split_once, split, split_double, drop_last}
use huracan.Server.{◌>>=◌, SuiIndexedType}

-- The first three parts of the path; `it.next().unwrap()` panics if there are less.
abbrev pub take_path : Text → List Text → List Text → Option SuiIndexedType
take_path full generics (package_ ∷ module_ ∷ struct_ ∷ rest) = some (record {
  full = full;
  package_ = package_;
  module_ = module_;
  struct_ = struct_;
  generics = generics;
})
take_path full generics _ = none

-- `terms` without the last character, which is to be the closing bracket.
abbrev pub split_terms : Text → Option (List Text)
split_terms terms = do inner ← drop_last terms; some (map trim_start (split b',' inner))

unfoldable pub parse_type : Text → Option SuiIndexedType
parse_type full_ty = elim (split_once b'<' full_ty) [
  | none ↦ take_path full_ty [] (split_double b':' full_ty)
  | some (ty, terms) ↦ do
    generics ← split_terms terms
    take_path full_ty generics (split_double b':' ty)
]
