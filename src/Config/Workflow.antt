-- ===== src/Config/Workflow.antt =====
-- What `Validate` of mind-palace/config/config.go ensures of the workflow.
use clued.Base.{
  ◌≡◌, refl, Bool, true, false, not, ◌&&◌, ◌||◌, some, List, [], ◌∷◌, ◌++◌, arith, Str, is_empty,
  str_eq, str_eq_iff, contains, lookup, nil-append, Bool-cases, Option-cases, inl, inr,
}
use clued.Config.{
  KindConfig, has_status, transitions, can_transition, default_status, Problem, problem_if, is_nil,
  no_dir, no_types, no_statuses, no_default_status, type_problems, bad_source, bad_target,
  target_problems, workflow_problems, validate,
}

problem_if_nil : (b : Bool) (p : Problem) → problem_if b p ≡ [] → b ≡ false
problem_if_nil true p h = cc
problem_if_nil false p h = refl

target_problems-nil :
    (c : KindConfig) (tos : List Str) (to : Str)
    → target_problems c tos ≡ []
    → contains tos to ≡ true
    → has_status c to ≡ true
unfolding target_problems contains
target_problems-nil c [] to h m = cc
target_problems-nil c (t ∷ tos) to h m =
    let (first, rest) =
      nil-append (problem_if (not (has_status c t)) (bad_target t)) (target_problems c tos) h in
    let known = problem_if_nil (not (has_status c t)) (bad_target t) first in
    ground (arith, str_eq_iff t to, target_problems-nil c tos to rest)

workflow_problems-nil :
    (c : KindConfig) (entries : List (Str × List Str)) (from to : Str) (tos : List Str)
    → workflow_problems c entries ≡ []
    → lookup from entries ≡ some tos
    → contains tos to ≡ true
    → (has_status c from ≡ true) × (has_status c to ≡ true)
unfolding workflow_problems lookup
workflow_problems-nil c [] from to tos h l m = cc
workflow_problems-nil c ((f, ts) ∷ entries) from to tos h l m =
    let (source, later) =
      nil-append (problem_if (not (has_status c f)) (bad_source f))
        (target_problems c ts ++ workflow_problems c entries) h in
    let (targets, rest) = nil-append (target_problems c ts) (workflow_problems c entries) later in
    let known = problem_if_nil (not (has_status c f)) (bad_source f) source in
    elim (Bool-cases (str_eq f from)) [
      | inl here ↦
          let same : ts ≡ tos = ground arith in
          (ground (arith, str_eq_iff f from), target_problems-nil c ts to targets (ground arith))
      | inr there ↦ workflow_problems-nil c entries from to tos rest (ground arith) m
    ]

-- In settings that `Validate` accepts, the default status exists, and where the workflow leads from
-- a status to a status, both are configured.
pub can_transition-validate :
    (c : KindConfig) (from to : Str)
    → validate c ≡ []
    → (has_status c default_status ≡ true)
      × ((not (can_transition c from to) || (has_status c from && has_status c to)) ≡ true)
unfolding can_transition transitions validate contains
can_transition-validate c from to h =
    let workflow = workflow_problems c c.workflow in
    let (a, h1) = nil-append (problem_if (is_empty c.dir) no_dir) _ h in
    let (b, h2) = nil-append (problem_if (is_nil c.types) no_types) _ h1 in
    let (d, h3) = nil-append (type_problems c.types) _ h2 in
    let (e, h4) = nil-append (problem_if (is_nil c.statuses) no_statuses) _ h3 in
    let (f, h5) =
      nil-append (problem_if (not (has_status c default_status)) no_default_status) _ h4 in
    let (w, g) = nil-append workflow _ h5 in
    let known = problem_if_nil (not (has_status c default_status)) no_default_status f in
    (
      ground arith,
      elim (Option-cases (lookup from c.workflow)) [
        | inl missing ↦ ground arith
        | inr (tos, found) ↦ elim (Bool-cases (contains tos to)) [
          | inl leads ↦
              let (source, target) = workflow_problems-nil c c.workflow from to tos w found leads in
              ground arith
          | inr stays ↦ ground arith
        ]
      ],
    )
