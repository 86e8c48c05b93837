-- ===== src/Service.antt =====
-- The plan and story services, mind-palace/service: the kinds of mind-palace/kind/kind.go, the
-- errors of errors.go and the Palace and Service of service.go.
pub mod Resolving
pub mod Saving
pub mod Dependencies
pub mod Fields
pub mod Claiming
pub mod Saved
pub mod Gates
pub mod Claims
pub mod Schedule
pub mod Checklist
pub mod Relating
pub mod Attaching
pub mod Progressing
pub mod Completing
pub mod Histories
pub mod Serving
pub mod ServingLinks
pub mod ServingProgress
pub mod Runs
use clued.Base.{
  Bool, true, false, ◌||◌, Option, List, [], ◌∷◌, ◌++◌, Str, bytes, str_eq, if◌then◌else◌, Result,
  ok, err,
}
use clued.Model.{FrontMatter, Document, plan, story}
use clued.Model.Ids.{LetterCase}
use clued.Config.{KindConfig}
use clued.Markdown.{Folding}
use clued.Store.Plugin.{Failure}

-- A `Kind`, but for the pattern of its progress keys.
pub record Kind : Type 0 where
  pub name : Str
  pub plural : Str
  pub title : Str
  pub default_dir : Str
  pub scheme : Str
  pub progress_key_noun : Str
  pub unknown_progress_key_error : Str
  pub linked_error : Str
  pub plan_relations : List Str
  pub story_relations : List Str
  pub progress_stories : Bool
  pub plan_link_sections : Bool
  pub has_purpose : Bool
  pub has_assignee : Bool
  pub tracks_started : Bool
  pub criteria_gate : Bool
  pub auto_complete : Bool
  pub work_log : Bool
  pub strict_progress_on_update : Bool
  pub repo_files : Bool
  pub protect_default_template : Bool
  pub link_targets_must_exist : Bool
  pub immutable : List Str
  pub event_prefix : Str

abbrev pub plan_kind : Kind
plan_kind = record {
  name = plan;
  plural = bytes "plans";
  title = bytes "Plan";
  default_dir = bytes "docs/plans";
  scheme = bytes "plan://";
  progress_key_noun = bytes "section";
  unknown_progress_key_error = bytes "UnknownSection";
  linked_error = bytes "LinkedPlan";
  plan_relations = bytes "parent" ∷ bytes "included" ∷ bytes "depends" ∷ bytes "blocks" ∷ [];
  story_relations = bytes "included" ∷ bytes "depends" ∷ bytes "blocks" ∷ [];
  progress_stories = true;
  plan_link_sections = false;
  has_purpose = false;
  has_assignee = false;
  tracks_started = false;
  criteria_gate = false;
  auto_complete = false;
  work_log = false;
  strict_progress_on_update = false;
  repo_files = false;
  protect_default_template = false;
  link_targets_must_exist = true;
  immutable = bytes "id" ∷ bytes "created" ∷ bytes "updated" ∷ bytes "completed" ∷ [];
  event_prefix = plan;
}

abbrev pub story_kind : Kind
story_kind = record {
  name = story;
  plural = bytes "stories";
  title = bytes "Story";
  default_dir = bytes "docs/stories";
  scheme = bytes "story://";
  progress_key_noun = bytes "step";
  unknown_progress_key_error = bytes "UnknownStep";
  linked_error = bytes "LinkedStory";
  plan_relations = bytes "included" ∷ bytes "depends" ∷ bytes "blocks" ∷ [];
  story_relations = bytes "parent" ∷ bytes "included" ∷ bytes "depends" ∷ bytes "blocks" ∷ [];
  progress_stories = false;
  plan_link_sections = true;
  has_purpose = true;
  has_assignee = true;
  tracks_started = true;
  criteria_gate = true;
  auto_complete = true;
  work_log = true;
  strict_progress_on_update = true;
  repo_files = true;
  protect_default_template = true;
  link_targets_must_exist = true;
  immutable =
      bytes "id" ∷ bytes "created" ∷ bytes "updated" ∷ bytes "started" ∷ bytes "completed" ∷ [];
  event_prefix = story;
}

-- What holds a document up: the kind, the id and the status of a document, and the relation.
pub record Dependency : Type 0 where
  pub kind : Str
  pub id : Str
  pub title : Str
  pub status : Str
  pub relation : Str

-- What `check` reports, in the order found; `schema` is a problem of the JSON Schema.
pub data Problem : Type 0 where
  schema : Str → Problem
  unknown_type unknown_status title_mismatch planned_dates no_assignee_field : Problem
  bad_file_name id_mismatch type_mismatch misplaced self_link : Problem

-- The errors of the operations here. `partly_stored` is a StorageError with `Partial` set, which
-- comes with the document.
pub data Error : Type 0 where
  bad_request not_found invalid_transition conflict storage unknown_criterion unknown_section
        unknown_step :
      Error
  validation : List Problem → Error
  incomplete_criteria : Error
  blocked_by_dependency : List Dependency → Error
  partly_stored : Document → Error

-- What `Put` of the store returns where it fails: a FanoutError, or any other error.
pub data PutFailure : Type 0 where
  fanned_out refused : PutFailure

-- What is behind a Palace: the store, the clock and the configuration. `reformat` is `time.Parse`
-- with a layout and then `Format` with TimestampLayout, `reformat_date` the same with DateLayout
-- for a timestamp; `schema_problems` is the validator of a kind.
pub record Palace (S : Type 0) : Type 0 where
  pub get : Str → Str → S → Result Failure Document
  pub put : Document → S → S × Result PutFailure (Unit {0})
  pub list : Str → S → Result Failure (List Document)
  pub plans : KindConfig
  pub stories : KindConfig
  pub timestamp : Str
  pub reformat : Str → Str → Option Str
  pub reformat_date : Str → Option Str
  pub schema_problems : Str → FrontMatter → List Str
  pub letters : LetterCase
  pub folding : Folding

-- An event on the bus.
pub data Action : Type 0 where
  created updated : Action

-- `Kind.Event`
abbrev pub event_type : Kind → Action → Str
event_type k created = k.event_prefix ++ bytes ".created"
event_type k updated = k.event_prefix ++ bytes ".updated"

pub record Event : Type 0 where
  pub type : Str
  pub kind : Str
  pub id : Str
  pub operation : Str
  pub at : Str
  pub document : Document

-- What the operations change: the store, and the events published, last first.
pub record World (S : Type 0) : Type 0 where
  pub store : S
  pub events : List Event

-- The configuration of a kind.
abbrev pub config_of : {S : Type 0} → Palace S → Kind → KindConfig
config_of p k = if str_eq k.name story then p.stories else p.plans

abbrev pub in_progress : Str
in_progress = bytes "in_progress"

abbrev pub complete : Str
complete = bytes "complete"

abbrev pub archived : Str
archived = bytes "archived"

-- A handler behind a call that may fail: the error is returned and the world is as it was.
abbrev pub behind :
    {A : Type 0} {S : Type 0}
    → World S
    → Result Error A
    → (A → World S × Result Error Document)
    → World S × Result Error Document
behind w r f = elim r [ err e ↦ (w, err e) | ok a ↦ f a ]
