-- ===== src/Model/Linking.antt =====
-- The links of a document: `PlanLinks`, `SetPlanLinks`, `StoryLinks`, `SetStoryLinks` and `IsEmpty`
-- of mind-palace/model/model.go, and `filterLinks` of mind-palace/service/links.go.
use clued.Base.{
  ℕ, ◌+◌, ◌≡◌, refl, Bool, true, false, ◌&&◌, ◌||◌, Option, none, some, List, [], ◌∷◌, arith, Str,
  is_empty, str_eq, keep, length, if◌then◌else◌, not, Option-cases, Bool-cases, inl, inr,
}
use clued.Model.{Link, Repo, Links, FrontMatter}

abbrev pub no_links : Links
no_links = record { repo = none; specs = []; web = []; stories = []; plans = [] }

abbrev is_nil {ℓ} : {A : Type ℓ} → List A → Bool
is_nil [] = true
is_nil (x ∷ xs) = false

abbrev has_no_repo : Option Repo → Bool
has_no_repo none = true
has_no_repo (some r) = false

-- `Links.IsEmpty`.
unfoldable pub no_link_set : Links → Bool
no_link_set l =
    has_no_repo l.repo && is_nil l.specs && is_nil l.web && is_nil l.stories && is_nil l.plans

unfoldable pub plan_links : FrontMatter → List Link
plan_links f = elim f.links [ none ↦ [] | some l ↦ l.plans ]

unfoldable pub story_links : FrontMatter → List Link
story_links f = elim f.links [ none ↦ [] | some l ↦ l.stories ]

-- Drops a `Links` that is empty.
unfoldable pub tidied : Links → Option Links
unfolding no_link_set
tidied l = if no_link_set l then none else some l

unfoldable pub set_plan_links : List Link → FrontMatter → FrontMatter
unfolding tidied
set_plan_links [] f = elim f.links [
  | none ↦ f
  | some l ↦ record f { links = tidied (record l { plans = [] }) }
]
set_plan_links (x ∷ xs) f = elim f.links [
  | none ↦ record f { links = some (record no_links { plans = x ∷ xs }) }
  | some l ↦ record f { links = some (record l { plans = x ∷ xs }) }
]

unfoldable pub set_story_links : List Link → FrontMatter → FrontMatter
unfolding tidied
set_story_links [] f = elim f.links [
  | none ↦ f
  | some l ↦ record f { links = tidied (record l { stories = [] }) }
]
set_story_links (x ∷ xs) f = elim f.links [
  | none ↦ record f { links = some (record no_links { stories = x ∷ xs }) }
  | some l ↦ record f { links = some (record l { stories = x ∷ xs }) }
]

-- Whether `filterLinks` takes a link out.
unfoldable pub is_filtered : Str → Str → Link → Bool
is_filtered target relation l =
    str_eq l.id target && (is_empty relation || str_eq l.relation relation)

-- `filterLinks`: the links that stay, and how many do not.
unfoldable pub filter_links : Str → Str → List Link → List Link × ℕ
unfolding is_filtered
filter_links target relation [] = ([], 0)
filter_links target relation (l ∷ links) =
    let (kept, removed) = filter_links target relation links in
    if is_filtered target relation l then (kept, removed + 1) else (l ∷ kept, removed)

-- Whether the front matter carries no empty `Links`.
unfoldable pub is_tidy : FrontMatter → Bool
unfolding no_link_set
is_tidy f = elim f.links [ none ↦ true | some l ↦ not (no_link_set l) ]

is_nil_lem {ℓ} : {A : Type ℓ} (xs : List A) → is_nil xs ≡ true → xs ≡ []
is_nil_lem [] h = refl
is_nil_lem (x ∷ xs) h = cc

bare_stories : (l : Links) → no_link_set l ≡ true → l.stories ≡ []
unfolding no_link_set
bare_stories l h = is_nil_lem l.stories (ground arith)

-- `SetPlanLinks` sets what `PlanLinks` reads, leaves the links to stories as they are, and leaves
-- no empty `Links` behind, if there was none before.
pub plan_links-set_plan_links :
    (links : List Link) (f : FrontMatter)
    → is_tidy f ≡ true
    → (plan_links (set_plan_links links f) ≡ links)
      × (story_links (set_plan_links links f) ≡ story_links f)
      × (is_tidy (set_plan_links links f) ≡ true)
unfolding set_plan_links plan_links story_links is_tidy
plan_links-set_plan_links [] f h = elim (Option-cases f.links) [
  | inl missing ↦ (ground arith, ground arith, ground arith)
  | inr (l, found) ↦ elim (Bool-cases (no_link_set (record l { plans = [] }))) [
    | inl bare ↦
        (ground arith, ground (arith, bare_stories (record l { plans = [] }) bare), ground arith)
    | inr more ↦ (ground arith, ground arith, ground arith)
  ]
]
plan_links-set_plan_links (x ∷ xs) f h = elim (Option-cases f.links) [
  | inl missing ↦ (ground arith, ground arith, ground arith)
  | inr (l, found) ↦ (ground arith, ground arith, ground arith)
]

-- `filterLinks` keeps, in order, the links to other targets and, where a relation is named, those
-- with another relation, and counts the rest.
pub filter_links-keep :
    (target relation : Str) (links : List Link)
    → ((filter_links target relation links).0
        ≡ keep
            (λ l.
              not (str_eq l.id target)
              || (not (is_empty relation) && not (str_eq l.relation relation)))
            links)
      × ((filter_links target relation links).1 + length (filter_links target relation links).0
          ≡ length links)
unfolding filter_links keep
filter_links-keep target relation [] = (refl, refl)
filter_links-keep target relation (l ∷ links) =
    let (kept, counted) = filter_links-keep target relation links in
    (ground (arith, kept), ground (arith, counted))
