-- ===== src/Auth/Bearer.antt =====
-- `bearer` of mind-palace/server/auth/auth.go: the token of an Authorization header.
use clued.Base.{
  ℕ, ◌+◌, Bool, not, ◌&&◌, ◌||◌, [], ◌∷◌, map, Str, bytes, is_empty, str_eq, any, trim_space, leb,
  ◌==◌, if◌then◌else◌, Result, ok, err, Option, none, some,
}

pub data Problem : Type 0 where
  missing_header malformed_header : Problem

-- `strings.Cut(s, " ")`, `none` if there is no space.
unfoldable pub cut_space : Str → Option (Str × Str)
cut_space [] = none
cut_space (c ∷ s) =
    let rest = cut_space s in
    if c == 32
    then some ([], s)
    else elim rest [ none ↦ none | some (before, after) ↦ some (c ∷ before, after) ]

unfoldable pub lower : ℕ → ℕ
lower c = if leb b'A' c && leb c b'Z' then c + 32 else c

-- `strings.EqualFold(s, "Bearer")`: no letter of the word folds to one outside ASCII.
unfoldable pub is_bearer : Str → Bool
unfolding lower
is_bearer scheme = str_eq (map lower scheme) (bytes "bearer")

unfoldable pub has_blank : Str → Bool
has_blank s = any (λ c. (c == 32) || (c == 9)) s

unfoldable pub bearer : Str → Result Problem Str
unfolding is_bearer has_blank
bearer header =
    let trimmed = trim_space header in
    if is_empty trimmed then err missing_header else elim (cut_space trimmed) [
      | none ↦ err malformed_header
      | some (scheme, rest) ↦
          let raw = trim_space rest in
          if not (is_bearer scheme)
          then err malformed_header
          else if is_empty raw || has_blank raw
          then err malformed_header
          else ok raw
    ]
