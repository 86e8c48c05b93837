-- ===== src/Auth/Projects.antt =====
-- Project lists of mind-palace/server/auth/auth.go: `cleanProjects` and `AllowProject`.
use clued.Base.{
  ◌≡◌, refl, Bool, true, false, not, All, ◌&&◌, ◌||◌, List, [], ◌∷◌, ◌++◌, arith, Str, bytes,
  is_empty, str_eq, str_eq_iff, contains, trim_space, if◌then◌else◌,
}
use clued.Auth.Token.{Principal}

-- The loop body of `cleanProjects`: append a trimmed slug unless it is empty or listed.
unfoldable pub add_project : List Str → Str → List Str
add_project out p =
    let q = trim_space p in if not (is_empty q) && not (contains out q) then out ++ q ∷ [] else out

unfoldable pub clean_projects : List Str → List Str → List Str
clean_projects base [] = base
clean_projects base (p ∷ add) = clean_projects (add_project base p) add

abbrev pub star : Str
star = bytes "*"

-- The loop of `AllowProject`.
unfoldable pub covers : List Str → Str → Bool
covers [] slug = false
covers (s ∷ list) slug = (str_eq s star || str_eq s slug) || covers list slug

unfoldable pub allow_project : Principal → Str → Bool
unfolding covers
allow_project p slug = if is_empty slug then false else covers p.projects slug

pub contains-append :
    (xs ys : List Str) (v : Str) → contains (xs ++ ys) v ≡ (contains xs v || contains ys v)
unfolding contains
contains-append [] ys v = refl
contains-append (x ∷ xs) ys v = ground (arith, contains-append xs ys v)

-- The slugs that a list of additions stands for: trimmed, the empty ones left out.
unfoldable pub offers : List Str → Str → Bool
offers [] v = false
offers (p ∷ add) v = (not (is_empty (trim_space p)) && str_eq (trim_space p) v) || offers add v

contains-add_project :
    (out : List Str) (p v : Str)
    → contains (add_project out p) v
      ≡ (contains out v || (not (is_empty (trim_space p)) && str_eq (trim_space p) v))
unfolding add_project contains
contains-add_project out p v =
    ground (arith, contains-append out (trim_space p ∷ []) v, str_eq_iff (trim_space p) v)

-- A slug is on the cleaned list exactly when the base lists it or an addition, trimmed and not
-- empty, is it.
contains-clean_projects :
    (base add : List Str) (v : Str)
    → contains (clean_projects base add) v ≡ (contains base v || offers add v)
unfolding clean_projects offers
contains-clean_projects base [] v = ground arith
contains-clean_projects base (p ∷ add) v =
    ground
      (arith, contains-clean_projects (add_project base p) add v, contains-add_project base p v)

-- `covers` by membership.
pub covers-contains :
    (list : List Str) (slug : Str) → covers list slug ≡ (contains list star || contains list slug)
unfolding covers contains
covers-contains [] slug = refl
covers-contains (s ∷ list) slug = ground (arith, covers-contains list slug)

-- Every slug of the list is as `cleanProjects` leaves it.
abbrev pub AllTrimmed : List Str → Type 0
AllTrimmed list = All (λ (p : Str). trim_space p ≡ p) list

contains-offers :
    (list : List Str) (v : Str) → AllTrimmed list → offers list v ≡ true → contains list v ≡ true
unfolding offers contains
contains-offers [] v h o = cc
contains-offers (p ∷ list) v (t, ts) o = ground (arith, contains-offers list v ts, t)

-- `cleanProjects` of trimmed slugs covers nothing that they do not.
pub covers-clean_projects :
    (list : List Str) (slug : Str)
    → AllTrimmed list
    → covers (clean_projects [] list) slug ≡ true
    → covers list slug ≡ true
unfolding contains
covers-clean_projects list slug h c = ground (
  arith,
  covers-contains (clean_projects [] list) slug,
  covers-contains list slug,
  contains-clean_projects [] list star,
  contains-clean_projects [] list slug,
  contains-offers list star h,
  contains-offers list slug h,
)
