-- ===== src/Config/Defaults.antt =====
-- The built-in settings of plans and stories in mind-palace/config/config.go.
use clued.Base.{List, [], ◌∷◌, Str, bytes}
use clued.Model.{pos}
use clued.Config.{TypeDef, StatusDef, PriorityDef, EffortDef, KindConfig}

abbrev status_def : Str → Str → List Str → StatusDef
status_def name label synonyms = record { name = name; label = label; synonyms = synonyms }

abbrev type_def : Str → Str → List Str → TypeDef
type_def name label synonyms = record { name = name; label = label; synonyms = synonyms }

abbrev priority_def : Str → List Str → PriorityDef
priority_def value labels = record { value = value; labels = labels }

abbrev pub default_statuses : List StatusDef
default_statuses =
    status_def (bytes "pending") (bytes "Pending") (bytes "new" ∷ bytes "draft" ∷ bytes "todo" ∷ [])
    ∷ status_def (bytes "validated") (bytes "Validated") (bytes "validate" ∷ bytes "valid" ∷ [])
    ∷ status_def (bytes "ready") (bytes "Ready") (bytes "approve" ∷ bytes "approved" ∷ [])
    ∷ status_def (bytes "in_progress") (bytes "In Progress") (
        bytes "start"
        ∷ bytes "started"
        ∷ bytes "active"
        ∷ bytes "working"
        ∷ bytes "progress"
        ∷ bytes "in-progress"
        ∷ [])
    ∷ status_def (bytes "complete") (bytes "Complete") (
        bytes "done"
        ∷ bytes "completed"
        ∷ bytes "finish"
        ∷ bytes "finished"
        ∷ bytes "close"
        ∷ bytes "closed"
        ∷ [])
    ∷ status_def (bytes "blocked") (bytes "Blocked")
        (bytes "block" ∷ bytes "hold" ∷ bytes "on_hold" ∷ [])
    ∷ status_def (bytes "rejected") (bytes "Rejected") (
        bytes "reject"
        ∷ bytes "skip"
        ∷ bytes "skipped"
        ∷ bytes "cancel"
        ∷ bytes "cancelled"
        ∷ bytes "wontdo"
        ∷ bytes "wontfix"
        ∷ [])
    ∷ status_def (bytes "archived") (bytes "Archived")
        (bytes "archive" ∷ bytes "shelve" ∷ bytes "shelved" ∷ bytes "park" ∷ bytes "parked" ∷ [])
    ∷ []

abbrev pub default_workflow : List (Str × List Str)
default_workflow =
    (bytes "pending", bytes "blocked" ∷ bytes "rejected" ∷ bytes "validated" ∷ [])
    ∷ (
      bytes "validated",
      bytes "ready" ∷ bytes "pending" ∷ bytes "blocked" ∷ bytes "rejected" ∷ bytes "archived" ∷ [],
    )
    ∷ (
      bytes "ready",
      bytes "in_progress" ∷ bytes "validated" ∷ bytes "blocked" ∷ bytes "rejected" ∷ [],
    )
    ∷ (
      bytes "in_progress",
      bytes "blocked" ∷ bytes "rejected" ∷ bytes "complete" ∷ bytes "ready" ∷ [],
    )
    ∷ (bytes "blocked", bytes "pending" ∷ bytes "ready" ∷ bytes "rejected" ∷ [])
    ∷ (bytes "rejected", bytes "blocked" ∷ bytes "archived" ∷ bytes "pending" ∷ bytes "ready" ∷ [])
    ∷ (bytes "complete", bytes "archived" ∷ bytes "in_progress" ∷ [])
    ∷ (bytes "archived", bytes "pending" ∷ bytes "ready" ∷ [])
    ∷ []

abbrev pub default_priorities : List PriorityDef
default_priorities =
    priority_def (bytes "0") (bytes "P0" ∷ bytes "Emergency" ∷ [])
    ∷ priority_def (bytes "1") (bytes "P1" ∷ bytes "Critical" ∷ bytes "Block" ∷ [])
    ∷ priority_def (bytes "2") (bytes "P2" ∷ bytes "Major" ∷ bytes "High" ∷ [])
    ∷ priority_def (bytes "3") (bytes "P3" ∷ bytes "Moderate" ∷ bytes "Medium" ∷ [])
    ∷ priority_def (bytes "4") (bytes "P4" ∷ bytes "Minor" ∷ bytes "Low" ∷ [])
    ∷ priority_def (bytes "5") (bytes "P5" ∷ bytes "Feature Request" ∷ bytes "Informational" ∷ [])
    ∷ []

abbrev pub default_efforts : List EffortDef
default_efforts =
    record { name = bytes "XS"; labels = bytes "Extra Small" ∷ []; points = pos 2 }
    ∷ record { name = bytes "S"; labels = bytes "Small" ∷ []; points = pos 3 }
    ∷ record { name = bytes "M"; labels = bytes "Medium" ∷ []; points = pos 5 }
    ∷ record { name = bytes "L"; labels = bytes "Large" ∷ []; points = pos 8 }
    ∷ record { name = bytes "XL"; labels = bytes "Extra Large" ∷ []; points = pos 13 }
    ∷ []

abbrev pub default_plans : KindConfig
default_plans = record {
  dir = bytes "docs/plans";
  types =
      type_def (bytes "drft") (bytes "Draft") ([])
      ∷ type_def (bytes "dsgn") (bytes "Design") ([])
      ∷ type_def (bytes "impl") (bytes "Implementation") ([])
      ∷ [];
  statuses = default_statuses;
  workflow = default_workflow;
  priorities = default_priorities;
  efforts = default_efforts;
}

abbrev pub default_stories : KindConfig
default_stories = record {
  dir = bytes "docs/stories";
  types =
      type_def (bytes "bugs") (bytes "Bug") (bytes "bug" ∷ bytes "fix" ∷ [])
      ∷ type_def (bytes "feat") (bytes "Feature") (bytes "feature" ∷ [])
      ∷ type_def (bytes "impr") (bytes "Improvement") (bytes "improvement" ∷ bytes "refactor" ∷ [])
      ∷ type_def (bytes "chor") (bytes "Chore") (bytes "chore" ∷ [])
      ∷ type_def (bytes "task") (bytes "Task") ([])
      ∷ [];
  statuses = default_statuses;
  workflow = default_workflow;
  priorities = default_priorities;
  efforts = default_efforts;
}
