-- ===== src/Config.antt =====
-- The settings of a kind of document: `KindConfig` of mind-palace/config/config.go.
pub mod Defaults
pub mod Workflow
use clued.Base.{
  ℕ, suc, ◌+◌, ◌≡◌, Bool, true, false, not, ◌&&◌, ◌||◌, Option, none, some, List, [], ◌∷◌, ◌++◌,
  map, Str, bytes, is_empty, str_eq, trim_space, decimal, contains, lookup, any, length, leb,
  if◌then◌else◌,
}
use clued.Model.{ℤ, pos, negsuc}
use clued.Model.Ids.{LetterCase, is_lower_alnum}

pub record TypeDef : Type 0 where
  pub name : Str
  pub label : Str
  pub synonyms : List Str

pub record StatusDef : Type 0 where
  pub name : Str
  pub label : Str
  pub synonyms : List Str

pub record PriorityDef : Type 0 where
  pub value : Str
  pub labels : List Str

pub record EffortDef : Type 0 where
  pub name : Str
  pub labels : List Str
  pub points : ℤ

pub record KindConfig : Type 0 where
  pub dir : Str
  pub types : List TypeDef
  pub statuses : List StatusDef
  pub workflow : List (Str × List Str)
  pub priorities : List PriorityDef
  pub efforts : List EffortDef

-- `KindConfig.Status`: the first status of that name.
unfoldable pub find_status : Str → List StatusDef → Option StatusDef
find_status name [] = none
find_status name (s ∷ statuses) = if str_eq s.name name then some s else find_status name statuses

unfoldable pub status : KindConfig → Str → Option StatusDef
unfolding find_status
status c name = find_status name c.statuses

abbrev pub has_status : KindConfig → Str → Bool
has_status c name = elim (status c name) [ none ↦ false | some s ↦ true ]

-- `c.Workflow[from]`, empty where it has no entry.
unfoldable pub transitions : KindConfig → Str → List Str
transitions c from = elim (lookup from c.workflow) [ none ↦ [] | some tos ↦ tos ]

unfoldable pub can_transition : KindConfig → Str → Str → Bool
unfolding transitions
can_transition c from to = contains (transitions c from) to

unfoldable pub status_names : KindConfig → List Str
status_names c = map (λ (s : StatusDef). s.name) c.statuses

-- `norm`
unfoldable pub norm : LetterCase → Str → Str
norm u s = u.lower (trim_space s)

-- Whether one of the spellings reads `n`.
unfoldable pub spells : LetterCase → Str → List Str → Bool
unfolding norm
spells u n [] = false
spells u n (s ∷ spellings) = str_eq n (norm u s) || spells u n spellings

-- A loop of the `Normalize` functions: the name of the first entry that has the spelling.
unfoldable pub first_spelled : LetterCase → Str → List (Str × List Str) → Option Str
unfolding spells
first_spelled u n [] = none
first_spelled u n ((name, spellings) ∷ entries) =
    if spells u n spellings then some name else first_spelled u n entries

-- Two loops, one after the other.
abbrev pub or_spelled : Option Str → Option Str → Option Str
or_spelled none later = later
or_spelled (some name) later = some name

unfoldable pub normalize_status : LetterCase → KindConfig → Str → Option Str
unfolding norm first_spelled
normalize_status u c given =
    let n = norm u given in
    if is_empty n
    then none
    else or_spelled
        (first_spelled u n (map (λ (s : StatusDef). (s.name, s.name ∷ s.label ∷ [])) c.statuses))
        (first_spelled u n (map (λ (s : StatusDef). (s.name, s.synonyms)) c.statuses))

unfoldable pub normalize_type : LetterCase → KindConfig → Str → Option Str
unfolding norm first_spelled
normalize_type u c given =
    let n = norm u given in
    or_spelled (first_spelled u n (map (λ (t : TypeDef). (t.name, t.name ∷ t.label ∷ [])) c.types))
      (first_spelled u n (map (λ (t : TypeDef). (t.name, t.synonyms)) c.types))

-- A value from JSON, YAML or the command line, as `scalarString` tells them apart: a text or a
-- `json.Number`, a number without a fraction, or anything else.
pub data Scalar : Type 0 where
  text : Str → Scalar
  whole : ℤ → Scalar
  other : Scalar

-- `%d`
unfoldable pub print_int : ℤ → Str
print_int (pos n) = decimal n
print_int (negsuc n) = b'-' ∷ decimal (n + 1)

unfoldable pub scalar_string : Scalar → Option Str
unfolding print_int
scalar_string (text s) = some s
scalar_string (whole n) = some (print_int n)
scalar_string other = none

unfoldable pub normalize_priority : LetterCase → KindConfig → Scalar → Option Str
unfolding norm first_spelled scalar_string
normalize_priority u c given = elim (scalar_string given) [
  | none ↦ none
  | some s ↦
      or_spelled
        (first_spelled u (norm u s)
          (map (λ (p : PriorityDef). (p.value, p.value ∷ [])) c.priorities))
        (first_spelled u (norm u s) (map (λ (p : PriorityDef). (p.value, p.labels)) c.priorities))
]

-- The second loop of `NormalizeEffort`: the points as they are printed, or a label.
unfoldable pub first_effort : LetterCase → Str → List EffortDef → Option Str
unfolding print_int spells
first_effort u n [] = none
first_effort u n (e ∷ efforts) =
    if str_eq n (print_int e.points) || spells u n e.labels
    then some e.name
    else first_effort u n efforts

unfoldable pub normalize_effort : LetterCase → KindConfig → Scalar → Option Str
unfolding norm first_spelled first_effort scalar_string
normalize_effort u c given = elim (scalar_string given) [
  | none ↦ none
  | some s ↦
      or_spelled
        (first_spelled u (norm u s) (map (λ (e : EffortDef). (e.name, e.name ∷ [])) c.efforts))
        (first_effort u (norm u s) c.efforts)
]

-- What `validate` may find wrong.
pub data Problem : Type 0 where
  no_dir no_types no_statuses no_default_status no_priorities : Problem
  bad_type bad_source bad_target : Str → Problem

abbrev pub problem_if : Bool → Problem → List Problem
problem_if true p = p ∷ []
problem_if false p = []

abbrev pub default_status : Str
default_status = bytes "pending"

abbrev pub is_nil {ℓ} : {A : Type ℓ} → List A → Bool
is_nil [] = true
is_nil (x ∷ xs) = false

-- `typeNameRe`
unfoldable pub is_type_name : Str → Bool
is_type_name name =
    not (any (λ c. not (is_lower_alnum c)) name) && leb 2 (length name) && leb (length name) 8

unfoldable pub type_problems : List TypeDef → List Problem
unfolding is_type_name
type_problems [] = []
type_problems (t ∷ types) =
    problem_if (not (is_type_name t.name)) (bad_type t.name) ++ type_problems types

unfoldable pub target_problems : KindConfig → List Str → List Problem
target_problems c [] = []
target_problems c (to ∷ tos) =
    problem_if (not (has_status c to)) (bad_target to) ++ target_problems c tos

unfoldable pub workflow_problems : KindConfig → List (Str × List Str) → List Problem
unfolding target_problems
workflow_problems c [] = []
workflow_problems c ((from, tos) ∷ entries) =
    problem_if (not (has_status c from)) (bad_source from)
    ++ (target_problems c tos ++ workflow_problems c entries)

unfoldable pub validate : KindConfig → List Problem
unfolding type_problems workflow_problems
validate c =
    problem_if (is_empty c.dir) no_dir
    ++ (problem_if (is_nil c.types) no_types
        ++ (type_problems c.types
            ++ (problem_if (is_nil c.statuses) no_statuses
                ++ (problem_if (not (has_status c default_status)) no_default_status
                    ++ (workflow_problems c c.workflow
                        ++ problem_if (is_nil c.priorities) no_priorities)))))
