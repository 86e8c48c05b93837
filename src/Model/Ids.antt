-- ===== src/Model/Ids.antt =====
-- Ids, slugs and file names of mind-palace/model/model.go: the patterns `IDRe`, `SlugRe` and
-- `FileNameRe`, and `NormalizeID`, `Slugify`, `FileName` and `ParseFileName`.
use clued.Base.{
  ℕ, zero, suc, ◌+◌, ◌≡◌, ◌<◌, Bool, true, false, not, ◌&&◌, ◌||◌, Option, none, some, [], ◌∷◌,
  ◌++◌, map, Str, bytes, is_empty, length, take, drop, leb, ◌==◌, str_eq, if◌then◌else◌, All, any,
}

abbrev pub is_digit : ℕ → Bool
is_digit c = leb b'0' c && leb c b'9'

-- `[a-z0-9]`
abbrev pub is_lower_alnum : ℕ → Bool
is_lower_alnum c = (leb b'a' c && leb c b'z') || is_digit c

-- `[a-zA-Z0-9]`
abbrev pub is_any_alnum : ℕ → Bool
is_any_alnum c = is_lower_alnum c || (leb b'A' c && leb c b'Z')

-- `-[a-z0-9]{3}` and no more.
unfoldable pub is_id_tail : Str → Bool
is_id_tail (h ∷ x ∷ y ∷ z ∷ []) =
    (h == b'-') && is_lower_alnum x && is_lower_alnum y && is_lower_alnum z
is_id_tail _ = false

-- `n` digits before that.
unfoldable pub is_id_of : ℕ → Str → Bool
unfolding is_id_tail
is_id_of zero s = is_id_tail s
is_id_of (suc n) [] = false
is_id_of (suc n) (c ∷ s) = is_digit c && is_id_of n s

-- `IDRe`.
unfoldable pub is_id : Str → Bool
unfolding is_id_of
is_id s = is_id_of 4 s

-- `NormalizeID`; `shortIDRe` has one to three digits.
unfoldable pub normalize_id : Str → Str
unfolding is_id_of
normalize_id id =
    if is_id_of 1 id
    then bytes "000" ++ id
    else if is_id_of 2 id
    then bytes "00" ++ id
    else if is_id_of 3 id
    then bytes "0" ++ id
    else id

-- `SlugRe`; the flag tells whether a hyphen or the end may come next.
unfoldable pub is_slug_from : Bool → Str → Bool
is_slug_from inside [] = inside
is_slug_from inside (c ∷ s) =
    if is_lower_alnum c then is_slug_from true s else inside && (c == b'-') && is_slug_from false s

unfoldable pub is_slug : Str → Bool
unfolding is_slug_from
is_slug s = is_slug_from false s

-- What the package takes from Go's Unicode tables: `strings.ToLower`, on ASCII as documented.
abbrev pub lower_char : ℕ → ℕ
lower_char c = if leb b'A' c && leb c b'Z' then c + 32 else c

pub record LetterCase : Type 0 where
  pub lower : Str → Str
  pub lower_ascii : (s : Str) → All (λ c. c < 128) s → lower s ≡ map lower_char s

-- The loop of `Slugify`. The bytes of a code point beyond ASCII are no letters or digits here, and
-- a run of such bytes writes one hyphen at most, as one code point does.
unfoldable pub slug_loop : Bool → Str → Str
slug_loop last_hyphen [] = []
slug_loop last_hyphen (c ∷ s) =
    if is_lower_alnum c
    then c ∷ slug_loop false s
    else if last_hyphen
    then slug_loop true s
    else b'-' ∷ slug_loop true s

-- `strings.TrimRight(s, "-")`.
unfoldable pub trim_hyphens : Str → Str
trim_hyphens [] = []
trim_hyphens (c ∷ s) =
    let rest = trim_hyphens s in if is_empty rest && (c == b'-') then [] else c ∷ rest

unfoldable pub slugify : LetterCase → Str → Str
unfolding slug_loop trim_hyphens
slugify u title =
    let s = trim_hyphens (slug_loop true (u.lower title)) in
    if is_empty s then bytes "untitled" else s

unfoldable pub file_name : LetterCase → Str → Str → Str → Str
file_name u id typ slug = id ++ (b'-' ∷ (u.lower typ ++ (b'-' ∷ (slug ++ bytes ".md"))))

abbrev pub is_separator : ℕ → Bool
is_separator c = (c == b'/') || (c == 92)

-- What stands behind the last slash or backslash.
unfoldable pub base_name : Str → Str
base_name [] = []
base_name (c ∷ s) = let rest = base_name s in if any is_separator (c ∷ s) then rest else c ∷ s

-- The leading `[a-zA-Z0-9]*`, and what follows.
unfoldable pub span_alnum : Str → Str × Str
span_alnum [] = ([], [])
span_alnum (c ∷ s) =
    let (front, rest) = span_alnum s in if is_any_alnum c then (c ∷ front, rest) else ([], c ∷ s)

-- The text before a last `.md`.
unfoldable pub strip_md : Str → Option Str
strip_md [] = none
strip_md (c ∷ s) =
    let rest = strip_md s in
    if str_eq (c ∷ s) (bytes ".md")
    then some []
    else elim rest [ none ↦ none | some front ↦ some (c ∷ front) ]

-- The parts of a file name behind the id.
unfoldable pub parse_rest : Str → Option (Str × Str)
unfolding span_alnum strip_md is_slug
parse_rest [] = none
parse_rest (h ∷ s) =
    let (typ, behind) = span_alnum s in
    if not (h == b'-') || not (leb 2 (length typ) && leb (length typ) 8)
    then none
    else elim behind [
      | [] ↦ none
      | g ∷ t ↦ if not (g == b'-') then none else elim (strip_md t) [
        | none ↦ none
        | some slug ↦ if is_slug slug then some (typ, slug) else none
      ]
    ]

-- `ParseFileName` behind the directory: the id, the type in lower case and the slug.
unfoldable pub parse_base : LetterCase → Str → Option (Str × Str × Str)
unfolding parse_rest is_id
parse_base u base = if not (is_id (take 8 base)) then none else elim (parse_rest (drop 8 base)) [
  | none ↦ none
  | some (typ, slug) ↦ some (take 8 base, u.lower typ, slug)
]

unfoldable pub parse_file_name : LetterCase → Str → Option (Str × Str × Str)
unfolding base_name parse_base
parse_file_name u name = parse_base u (base_name name)
