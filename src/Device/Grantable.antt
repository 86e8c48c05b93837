-- ===== src/Device/Grantable.antt =====
-- `grantable` of mind-palace/server/device/device.go: the projects an approver may pass on.
use clued.Base.{
  ◌≡◌, ap, sym, subst, ◌∙◌, All-append_one, trim_space-trim_space, Bool, true, ◌||◌, List, [], ◌∷◌,
  ◌++◌, arith, Str, is_empty, str_eq, str_eq_iff, contains, trim_space, if◌then◌else◌, Bool-cases,
  inl, inr, Result, ok, err,
}
use clued.Auth.Token.{Principal}
use clued.Auth.Projects.{
  AllTrimmed, clean_projects, covers-clean_projects, allow_project, covers, covers-contains, star,
}
use clued.Device.Flow.{Error, project}

-- Whether the loop accepts a trimmed slug.
unfoldable pub may_grant : Principal → Str → Bool
may_grant by p = if str_eq p star then contains by.projects star else allow_project by p

unfoldable pub list_once : List Str → Str → List Str
list_once out p = if contains out p then out else out ++ p ∷ []

unfoldable pub grantable_from : Principal → List Str → List Str → Result Error (List Str)
unfolding may_grant list_once
grantable_from by out [] = ok out
grantable_from by out (given ∷ projects) =
    let p = trim_space given in
    let skipped = grantable_from by out projects in
    let taken = grantable_from by (list_once out p) projects in
    if is_empty p then skipped else if may_grant by p then taken else err project

unfoldable pub grantable : Principal → List Str → Result Error (List Str)
unfolding grantable_from
grantable by [] = ok by.projects
grantable by (p ∷ projects) = grantable_from by [] (p ∷ projects)

-- Every slug that the list covers, the approver's projects cover.
abbrev pub Within : Principal → List Str → Type 0
Within by out = (slug : Str) → covers out slug ≡ true → covers by.projects slug ≡ true

covers-append :
    (out : List Str) (p slug : Str)
    → covers (out ++ p ∷ []) slug ≡ (covers out slug || (str_eq p star || str_eq p slug))
unfolding covers
covers-append [] p slug = ground arith
covers-append (x ∷ out) p slug = ground (arith, covers-append out p slug)

-- One accepted slug covers nothing that the approver's projects do not.
covers_of_may_grant :
    (by : Principal) (p slug : Str)
    → may_grant by p ≡ true
    → (str_eq p star || str_eq p slug) ≡ true
    → covers by.projects slug ≡ true
unfolding may_grant allow_project
covers_of_may_grant by p slug h e = ground (
  arith,
  str_eq_iff p star,
  str_eq_iff p slug,
  covers-contains by.projects slug,
  covers-contains by.projects p,
)

list_once-Within :
    (by : Principal) (out : List Str) (p : Str)
    → Within by out
    → may_grant by p ≡ true
    → Within by (list_once out p)
unfolding list_once
list_once-Within by out p w h slug e =
    ground (arith, w slug, covers_of_may_grant by p slug h, covers-append out p slug)

grantable_from-Within :
    (by : Principal) (out projects granted : List Str)
    → Within by out
    → grantable_from by out projects ≡ ok granted
    → Within by granted
unfolding grantable_from
grantable_from-Within by out [] granted w e = λ slug c. ground (arith, w slug)
grantable_from-Within by out (given ∷ projects) granted w e =
    let p = trim_space given in
    elim (Bool-cases (is_empty p)) [
      | inl blank ↦ grantable_from-Within by out projects granted w (ground arith)
      | inr full ↦ elim (Bool-cases (may_grant by p)) [
        | inl may ↦
            grantable_from-Within by (list_once out p) projects granted
              (list_once-Within by out p w may) (ground arith)
        | inr no_grant ↦ ground arith
      ]
    ]

list_once-AllTrimmed :
    (out : List Str) (given : Str) → AllTrimmed out → AllTrimmed (list_once out (trim_space given))
unfolding list_once
list_once-AllTrimmed out given h = elim (Bool-cases (contains out (trim_space given))) [
  | inl listed ↦ rw (listed, list_once) h
  | inr fresh ↦
      rw (fresh, list_once)
        (All-append_one (λ (p : Str). trim_space p ≡ p) out (trim_space given) h
          (trim_space-trim_space given))
]

grantable_from-AllTrimmed :
    (by : Principal) (out projects granted : List Str)
    → AllTrimmed out
    → grantable_from by out projects ≡ ok granted
    → AllTrimmed granted
unfolding grantable_from
grantable_from-AllTrimmed by out [] granted h e =
    let same : out ≡ granted = ground arith in subst AllTrimmed same h
grantable_from-AllTrimmed by out (given ∷ projects) granted h e =
    let p = trim_space given in
    elim (Bool-cases (is_empty p)) [
      | inl blank ↦ grantable_from-AllTrimmed by out projects granted h (ground arith)
      | inr full ↦ elim (Bool-cases (may_grant by p)) [
        | inl may ↦
            grantable_from-AllTrimmed by (list_once out p) projects granted
              (list_once-AllTrimmed out given h) (ground arith)
        | inr no_grant ↦ absurd (ground arith)
      ]
    ]

-- What a token with the granted projects, as `cleanProjects` leaves them, may touch, the approver
-- may touch, where its own list is as `cleanProjects` leaves it.
pub grantable-clean_projects :
    (by by' : Principal) (projects granted : List Str) (slug : Str)
    → clean_projects [] by.projects ≡ by.projects
    → grantable by projects ≡ ok granted
    → by'.projects ≡ clean_projects [] granted
    → allow_project by' slug ≡ true
    → allow_project by slug ≡ true
unfolding grantable allow_project
grantable-clean_projects by by' [] granted slug clean e minted a =
    let same : by.projects ≡ granted = ground arith in
    let equal : by'.projects ≡ by.projects =
      minted ∙ ap (λ ps. clean_projects [] ps) (sym same) ∙ clean in
    ground arith
grantable-clean_projects by by' (p ∷ projects) granted slug clean e minted a =
    let within = grantable_from-Within by [] (p ∷ projects) granted (λ s c. cc) e in
    let trimmed = grantable_from-AllTrimmed by [] (p ∷ projects) granted tt e in
    elim (Bool-cases (is_empty slug)) [
      | inl blank ↦ absurd (ground arith)
      | inr full ↦
          let held : covers by'.projects slug ≡ true = ground arith in
          let cleaned : covers (clean_projects [] granted) slug ≡ true =
            ap (λ ps. covers ps slug) (sym minted) ∙ held in
          let covered = covers-clean_projects granted slug trimmed cleaned in
          ground (arith, within slug covered)
    ]
