-- ===== src/Model/FileNames.antt =====
-- `ParseFileName` of mind-palace/model/model.go reads what `FileName` writes.
use clued.Base.{
  ℕ, zero, suc, ◌≡◌, ◌≤◌, ◌<◌, refl, subst, ap, ◌∙◌, Bool, true, false, ◌||◌, some, [], ◌∷◌, ◌++◌,
  map, arith, Str, bytes, any, any-append, take, drop, take-append, drop-append, length, str_eq,
  ◌==◌, All,
}
use clued.Model.Ids.{
  is_lower_alnum, is_id_tail, is_id_of, is_id, is_slug_from, is_slug, LetterCase, lower_char,
  file_name, is_separator, base_name, span_alnum, strip_md, parse_rest, parse_base, parse_file_name,
}
use clued.Model.Slugs.{length-is_id_of}

-- A type as the configuration wants it: two to eight lower-case letters and digits.
abbrev pub IsTypeName : Str → Type 0
IsTypeName typ = All (λ c. is_lower_alnum c ≡ true) typ × (2 ≤ length typ) × (length typ ≤ 8)

-- A byte that no part of a file name holds.
abbrev is_foreign : ℕ → Bool
is_foreign c = is_separator c || (c == b'.')

any-is_id_of : (n : ℕ) (s : Str) → is_id_of n s ≡ true → any is_foreign s ≡ false
unfolding is_id_of is_id_tail any
any-is_id_of zero [] h = refl
any-is_id_of zero (a ∷ []) h = cc
any-is_id_of zero (a ∷ b ∷ []) h = cc
any-is_id_of zero (a ∷ b ∷ c ∷ []) h = cc
any-is_id_of zero (a ∷ b ∷ c ∷ d ∷ []) h = ground arith
any-is_id_of zero (a ∷ b ∷ c ∷ d ∷ e ∷ s) h = cc
any-is_id_of (suc n) [] h = cc
any-is_id_of (suc n) (c ∷ s) h = ground (arith, any-is_id_of n s)

any-is_slug_from :
    (inside : Bool) (s : Str) → is_slug_from inside s ≡ true → any is_foreign s ≡ false
unfolding is_slug_from any
any-is_slug_from inside [] h = refl
any-is_slug_from inside (c ∷ s) h =
    ground (arith, any-is_slug_from true s, any-is_slug_from false s)

any-typ : (typ : Str) → All (λ c. is_lower_alnum c ≡ true) typ → any is_foreign typ ≡ false
unfolding any
any-typ [] h = refl
any-typ (c ∷ typ) (l, ls) = ground (arith, any-typ typ ls)

any-is_separator : (s : Str) → any is_foreign s ≡ false → any is_separator s ≡ false
unfolding any
any-is_separator [] h = refl
any-is_separator (c ∷ s) h = ground (arith, any-is_separator s)

base_name_plain : (s : Str) → any is_separator s ≡ false → base_name s ≡ s
unfolding base_name any
base_name_plain [] h = refl
base_name_plain (c ∷ s) h = ground arith

base_name-append : (dir s : Str) → any is_separator s ≡ false → base_name (dir ++ (b'/' ∷ s)) ≡ s
unfolding base_name any
base_name-append [] s h = ground (arith, base_name_plain s h)
base_name-append (c ∷ dir) s h =
    ground (arith, base_name-append dir s h, any-append is_separator dir (b'/' ∷ s))

span_alnum-append :
    (typ rest : Str)
    → All (λ c. is_lower_alnum c ≡ true) typ
    → span_alnum (typ ++ (b'-' ∷ rest)) ≡ (typ, b'-' ∷ rest)
unfolding span_alnum
span_alnum-append [] rest h = refl
span_alnum-append (c ∷ typ) rest (l, ls) = ground (arith, span_alnum-append typ rest ls)

strip_md-append :
    (slug : Str) → any is_foreign slug ≡ false → strip_md (slug ++ bytes ".md") ≡ some slug
unfolding strip_md str_eq any
strip_md-append [] h = refl
strip_md-append (c ∷ slug) h = ground (arith, strip_md-append slug)

map-lower_char : (typ : Str) → All (λ c. is_lower_alnum c ≡ true) typ → map lower_char typ ≡ typ
map-lower_char [] h = refl
map-lower_char (c ∷ typ) (l, ls) = ground (arith, map-lower_char typ ls)

IsAscii-typ : (typ : Str) → All (λ c. is_lower_alnum c ≡ true) typ → All (λ c. c < 128) typ
IsAscii-typ [] h = tt
IsAscii-typ (c ∷ typ) (l, ls) = (ground arith, IsAscii-typ typ ls)

any-lower :
    (u : LetterCase) (typ : Str) → All (λ c. is_lower_alnum c ≡ true) typ → u.lower typ ≡ typ
any-lower u typ ls = u.lower_ascii typ (IsAscii-typ typ ls) ∙ map-lower_char typ ls

-- A file name with its type in lower case has no separator.
any-name :
    (id typ slug : Str)
    → is_id id ≡ true
    → IsTypeName typ
    → is_slug slug ≡ true
    → any is_separator (id ++ (b'-' ∷ (typ ++ (b'-' ∷ (slug ++ bytes ".md"))))) ≡ false
unfolding any is_id is_slug
any-name id typ slug i (ls, lo, hi) s = ground (
  arith,
  any-append is_separator id (b'-' ∷ (typ ++ (b'-' ∷ (slug ++ bytes ".md")))),
  any-append is_separator typ (b'-' ∷ (slug ++ bytes ".md")),
  any-append is_separator slug (bytes ".md"),
  any-is_separator id (any-is_id_of 4 id i),
  any-is_separator typ (any-typ typ ls),
  any-is_separator slug (any-is_slug_from false slug s),
)

parse_rest_lem :
    (typ slug : Str)
    → IsTypeName typ
    → is_slug slug ≡ true
    → parse_rest (b'-' ∷ (typ ++ (b'-' ∷ (slug ++ bytes ".md")))) ≡ some (typ, slug)
unfolding parse_rest is_slug
parse_rest_lem typ slug (ls, lo, hi) s = ground (
  arith,
  span_alnum-append typ (slug ++ bytes ".md") ls,
  strip_md-append slug (any-is_slug_from false slug s),
)

parse_base_lem :
    (u : LetterCase) (id typ slug : Str)
    → is_id id ≡ true
    → IsTypeName typ
    → is_slug slug ≡ true
    → parse_base u (id ++ (b'-' ∷ (typ ++ (b'-' ∷ (slug ++ bytes ".md"))))) ≡ some (id, typ, slug)
unfolding parse_base is_id
parse_base_lem u id typ slug i t s =
    let behind = b'-' ∷ (typ ++ (b'-' ∷ (slug ++ bytes ".md"))) in
    let l : length id ≡ 8 = length-is_id_of 4 id i in
    let front : take 8 (id ++ behind) ≡ id =
      subst (λ n. take n (id ++ behind) ≡ id) l (take-append id behind) in
    let back : drop 8 (id ++ behind) ≡ behind =
      subst (λ n. drop n (id ++ behind) ≡ behind) l (drop-append id behind) in
    rw (front, back, parse_base)
      (rw (i, parse_rest_lem typ slug t s) (rw (any-lower u typ t.0, front) refl))

-- `ParseFileName` reads what `FileName` writes, alone or behind a directory: the id, the type and
-- the slug, where the type is as the configuration wants it.
pub parse_file_name-file_name :
    (u : LetterCase) (dir id typ slug : Str)
    → is_id id ≡ true
    → IsTypeName typ
    → is_slug slug ≡ true
    → (parse_file_name u (file_name u id typ slug) ≡ some (id, typ, slug))
      × (parse_file_name u (dir ++ (b'/' ∷ file_name u id typ slug)) ≡ some (id, typ, slug))
unfolding parse_file_name
parse_file_name-file_name u dir id typ slug i t s =
    let parsed = parse_base_lem u id typ slug i t s in
    let plain = any-name id typ slug i t s in
    let name = id ++ (b'-' ∷ (typ ++ (b'-' ∷ (slug ++ bytes ".md")))) in
    let named : file_name u id typ slug ≡ name =
      unfold file_name in
      ap (λ t. id ++ (b'-' ∷ (t ++ (b'-' ∷ (slug ++ bytes ".md"))))) (any-lower u typ t.0) in
    (
      ap (parse_file_name u) named ∙ (ap (parse_base u) (base_name_plain name plain) ∙ parsed),
      ap (λ n. parse_file_name u (dir ++ (b'/' ∷ n))) named
          ∙ (ap (parse_base u) (base_name-append dir name plain) ∙ parsed),
    )
