-- ===== src/Model/Slugs.antt =====
-- What `Slugify` of mind-palace/model/model.go returns, and the length of an id.
use clued.Base.{
  ℕ, zero, suc, ◌+◌, ◌≡◌, refl, Bool, true, false, not, ◌&&◌, ◌||◌, [], ◌∷◌, arith, Str, is_empty,
  length, ◌==◌, if◌then◌else◌, Bool-cases, inl, inr,
}
use clued.Model.Ids.{
  is_lower_alnum, is_id_tail, is_id_of, is_slug_from, is_slug, LetterCase, slug_loop, trim_hyphens,
  slugify,
}

-- What `trim_hyphens` makes of a byte before a trimmed rest.
abbrev pub trimmed_cons : ℕ → Str → Str
trimmed_cons c t = if is_empty t && (c == b'-') then [] else c ∷ t

abbrev IsTrimmedSlug : Bool → Str → Type 0
IsTrimmedSlug inside t = (is_empty t || is_slug_from inside t) ≡ true

trimmed_letter :
    (inside : Bool) (c : ℕ) (t : Str)
    → is_lower_alnum c ≡ true
    → IsTrimmedSlug true t
    → IsTrimmedSlug inside (trimmed_cons c t)
unfolding is_slug_from
trimmed_letter inside c [] h ih = ground arith
trimmed_letter inside c (d ∷ t) h ih = ground arith

trimmed_hyphen : (t : Str) → IsTrimmedSlug false t → IsTrimmedSlug true (trimmed_cons b'-' t)
unfolding is_slug_from
trimmed_hyphen [] ih = refl
trimmed_hyphen (d ∷ t) ih = ground arith

trim-slug_loop :
    (last_hyphen : Bool) (s : Str)
    → IsTrimmedSlug (not last_hyphen) (trim_hyphens (slug_loop last_hyphen s))
unfolding trim_hyphens slug_loop
trim-slug_loop last_hyphen [] = refl
trim-slug_loop last_hyphen (c ∷ s) = elim (Bool-cases (is_lower_alnum c)) [
  | inl kept ↦
      rw (kept, trim_hyphens, slug_loop)
        (trimmed_letter (not last_hyphen) c (trim_hyphens (slug_loop false s)) kept
          (trim-slug_loop false s))
  | inr hyphen ↦ elim (Bool-cases last_hyphen) [
    | inl again ↦ rw (again, hyphen, trim_hyphens, slug_loop) (trim-slug_loop true s)
    | inr first ↦
        rw (first, hyphen, trim_hyphens, slug_loop)
          (trimmed_hyphen (trim_hyphens (slug_loop true s)) (trim-slug_loop true s))
  ]
]

-- `Slugify` always gives a slug, whatever the title.
pub slugify-is_slug : (u : LetterCase) (title : Str) → is_slug (slugify u title) ≡ true
unfolding slugify is_slug
slugify-is_slug u title = ground (arith, trim-slug_loop true (u.lower title))

pub length-is_id_of : (n : ℕ) (s : Str) → is_id_of n s ≡ true → length s ≡ n + 4
unfolding is_id_of is_id_tail
length-is_id_of zero [] h = cc
length-is_id_of zero (a ∷ []) h = cc
length-is_id_of zero (a ∷ b ∷ []) h = cc
length-is_id_of zero (a ∷ b ∷ c ∷ []) h = cc
length-is_id_of zero (a ∷ b ∷ c ∷ d ∷ []) h = omega arith
length-is_id_of zero (a ∷ b ∷ c ∷ d ∷ e ∷ s) h = cc
length-is_id_of (suc n) [] h = cc
length-is_id_of (suc n) (c ∷ s) h = ground (arith, length-is_id_of n s)
