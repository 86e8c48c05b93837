-- ===== src/Service/Runs.antt =====
-- Any calls that change a document of mind-palace/service, one after the other, over the memory
-- plugin: the setters, Claim and the calls of links, specs, files and progress. Create, Update,
-- PatchFrontMatter, Delete and the calls of templates are not among them.
use clued.Base.{
  ◌≡◌, refl, subst, ℕ, Bool, true, false, some, List, [], ◌∷◌, arith, Str, str_eq, All,
  if◌then◌else◌, Bool-cases, Option-cases, Result, ok, inl, inr,
}
use clued.Model.{ℤ, Document}
use clued.Config.{Scalar}
use clued.Store.Memory.{Memory, find_doc, get}
use clued.Store.Plugin.{has_key}
use clued.Service.{Kind, plan_kind, story_kind, Error, Palace, World}
use clued.Service.Fields.{
  set_status, set_title, set_purpose, set_type, set_priority, set_effort, clear_effort,
}
use clued.Service.Claiming.{claim}
use clued.Service.Schedule.{
  set_tags, add_tag, remove_tag, set_milestone, set_due_date, set_planned_dates, set_order,
  set_assignee,
}
use clued.Service.Checklist.{
  set_criterion_state, add_criterion_text, remove_criterion_at, append_entry,
}
use clued.Service.Saved.{IsConsistent, check-nil}
use clued.Service.Relating.{
  add_plan_link, set_plan_sections, remove_plan_link, add_story_link, remove_story_link,
}
use clued.Service.Attaching.{
  add_spec, remove_spec, set_web_link, remove_web_link, set_repo, clear_repo, add_file, remove_file,
}
use clued.Service.ServingLinks.{
  add_plan_link-Clean, set_plan_sections-Clean, remove_plan_link-Clean, add_story_link-Clean,
  remove_story_link-Clean, add_spec-Clean, remove_spec-Clean, set_web_link-Clean,
  remove_web_link-Clean, set_repo-Clean, clear_repo-Clean, add_file-Clean, remove_file-Clean,
}
use clued.Service.Progressing.{
  set_progress, add_progress_story, remove_progress_story, remove_progress,
}
use clued.Service.ServingProgress.{
  set_progress-Clean, add_progress_story-Clean, remove_progress_story-Clean, remove_progress-Clean,
}
use clued.Service.Serving.{
  alone, set_status-Clean, set_title-Clean, set_purpose-Clean, set_type-Clean, set_priority-Clean,
  set_effort-Clean, clear_effort-Clean, set_tags-Clean, add_tag-Clean, remove_tag-Clean,
  set_milestone-Clean, set_due_date-Clean, set_planned_dates-Clean, set_order-Clean,
  set_assignee-Clean, set_criterion_state-Clean, add_criterion_text-Clean,
  remove_criterion_at-Clean, append_entry-Clean, claim-Clean,
}
use clued.Service.Histories.{kind_of, at_time, IsClean, Clean}

-- The operations, with their arguments.
pub data Call : Type 0 where
  status : Str → Str → Bool → Call
  title : Str → Str → Bool → Call
  purpose : Str → Str → Call
  type : Str → Str → Call
  priority : Str → Scalar → Call
  effort : Str → Scalar → Call
  no_effort : Str → Call
  claims : Bool → Str → Str → Bool → Call
  tags : Str → List Str → Call
  tag : Str → Str → Call
  no_tag : Str → Str → Call
  milestone : Str → Str → Call
  due_date : Str → Str → Call
  planned_dates : Str → Str → Str → Call
  order : Str → ℤ → Call
  assignee : Str → Str → Call
  criterion_state : Str → ℕ → Str → Call
  criterion_text : Str → Str → Str → Call
  no_criterion : Str → ℕ → Call
  entry : Str → Str → Call
  progress : Str → Str → Str → Call
  progress_story : Str → Str → Str → Call
  no_progress_story : Str → Str → Str → Call
  no_progress : Str → Str → Call
  plan_link : Str → Str → Str → List Str → Call
  plan_sections : Str → Str → List Str → Call
  no_plan_link : Str → Str → Str → Call
  story_link : Str → Str → Str → Call
  no_story_link : Str → Str → Str → Call
  spec : Str → Str → Call
  no_spec : Str → Str → Call
  web_link : Str → Str → Str → Call
  no_web_link : Str → Str → Call
  repo : Str → Str → Str → Str → Call
  no_repo : Str → Call
  file : Str → Str → Call
  no_file : Str → Str → Call

unfoldable pub serve :
    Palace Memory → Kind → Call → World Memory → World Memory × Result Error Document
serve p k (status i s force) w = set_status p k i s force w
serve p k (title i t rename) w = set_title p k i t rename w
serve p k (purpose i s) w = set_purpose p k i s w
serve p k (type i t) w = set_type p k i t w
serve p k (priority i v) w = set_priority p k i v w
serve p k (effort i v) w = set_effort p k i v w
serve p k (no_effort i) w = clear_effort p k i w
serve p k (claims locked i a force) w = claim p k (alone locked) i a force w
serve p k (tags i ts) w = set_tags p k i ts w
serve p k (tag i t) w = add_tag p k i t w
serve p k (no_tag i t) w = remove_tag p k i t w
serve p k (milestone i m) w = set_milestone p k i m w
serve p k (due_date i d) w = set_due_date p k i d w
serve p k (planned_dates i a z) w = set_planned_dates p k i a z w
serve p k (order i n) w = set_order p k i n w
serve p k (assignee i a) w = set_assignee p k i a w
serve p k (criterion_state i n s) w = set_criterion_state p k i n s w
serve p k (criterion_text i t kind) w = add_criterion_text p k i t kind w
serve p k (no_criterion i n) w = remove_criterion_at p k i n w
serve p k (entry i s) w = append_entry p k i s w
serve p k (progress i g s) w = set_progress p k i g s w
serve p k (progress_story i g s) w = add_progress_story p k i g s w
serve p k (no_progress_story i g s) w = remove_progress_story p k i g s w
serve p k (no_progress i g) w = remove_progress p k i g w
serve p k (plan_link i t r ss) w = add_plan_link p k i t r ss w
serve p k (plan_sections i t ss) w = set_plan_sections p k i t ss w
serve p k (no_plan_link i t r) w = remove_plan_link p k i t r w
serve p k (story_link i t r) w = add_story_link p k i t r w
serve p k (no_story_link i t r) w = remove_story_link p k i t r w
serve p k (spec i s) w = add_spec p k i s w
serve p k (no_spec i s) w = remove_spec p k i s w
serve p k (web_link i l u) w = set_web_link p k i l u w
serve p k (no_web_link i l) w = remove_web_link p k i l w
serve p k (repo i a b c) w = set_repo p k i a b c w
serve p k (no_repo i) w = clear_repo p k i w
serve p k (file i f) w = add_file p k i f w
serve p k (no_file i f) w = remove_file p k i f w

-- The service of plans or of stories, the time, and the call.
abbrev pub Timed : Type 0
Timed = Bool × Str × Call

abbrev pub service_kind : Bool → Kind
service_kind of_story = if of_story then story_kind else plan_kind

unfoldable pub run : {S : Type 0} → Palace S → List Timed → World Memory → World Memory
unfolding serve
run p [] w = w
run p ((of_story, now, call) ∷ calls) w =
    run p calls (serve (at_time p now) (service_kind of_story) call w).0

serve-Clean :
    {S : Type 0} (p : Palace S) (now : Str) (k : Kind) (w : World Memory)
    → kind_of k.name ≡ k
    → Clean p w
    → (call : Call) → Clean p (serve (at_time p now) k call w).0
unfolding serve
serve-Clean p now k w same h (status i s force) = set_status-Clean p now k same w h i s force
serve-Clean p now k w same h (title i t rename) = set_title-Clean p now k same w h i t rename
serve-Clean p now k w same h (purpose i s) = set_purpose-Clean p now k same w h i s
serve-Clean p now k w same h (type i t) = set_type-Clean p now k same w h i t
serve-Clean p now k w same h (priority i v) = set_priority-Clean p now k same w h i v
serve-Clean p now k w same h (effort i v) = set_effort-Clean p now k same w h i v
serve-Clean p now k w same h (no_effort i) = clear_effort-Clean p now k same w h i
serve-Clean p now k w same h (claims locked i a force) =
    claim-Clean p now k same w h locked i a force
serve-Clean p now k w same h (tags i ts) = set_tags-Clean p now k same w h i ts
serve-Clean p now k w same h (tag i t) = add_tag-Clean p now k same w h i t
serve-Clean p now k w same h (no_tag i t) = remove_tag-Clean p now k same w h i t
serve-Clean p now k w same h (milestone i m) = set_milestone-Clean p now k same w h i m
serve-Clean p now k w same h (due_date i d) = set_due_date-Clean p now k same w h i d
serve-Clean p now k w same h (planned_dates i a z) = set_planned_dates-Clean p now k same w h i a z
serve-Clean p now k w same h (order i n) = set_order-Clean p now k same w h i n
serve-Clean p now k w same h (assignee i a) = set_assignee-Clean p now k same w h i a
serve-Clean p now k w same h (criterion_state i n s) =
    set_criterion_state-Clean p now k same w h i n s
serve-Clean p now k w same h (criterion_text i t g) =
    add_criterion_text-Clean p now k same w h i t g
serve-Clean p now k w same h (no_criterion i n) = remove_criterion_at-Clean p now k same w h i n
serve-Clean p now k w same h (entry i s) = append_entry-Clean p now k same w h i s
serve-Clean p now k w same h (progress i g s) = set_progress-Clean p now k same w h i g s
serve-Clean p now k w same h (progress_story i g s) =
    add_progress_story-Clean p now k same w h i g s
serve-Clean p now k w same h (no_progress_story i g s) =
    remove_progress_story-Clean p now k same w h i g s
serve-Clean p now k w same h (no_progress i g) = remove_progress-Clean p now k same w h i g
serve-Clean p now k w same h (plan_link i t r ss) = add_plan_link-Clean p now k same w h i t r ss
serve-Clean p now k w same h (plan_sections i t ss) =
    set_plan_sections-Clean p now k same w h i t ss
serve-Clean p now k w same h (no_plan_link i t r) = remove_plan_link-Clean p now k same w h i t r
serve-Clean p now k w same h (story_link i t r) = add_story_link-Clean p now k same w h i t r
serve-Clean p now k w same h (no_story_link i t r) = remove_story_link-Clean p now k same w h i t r
serve-Clean p now k w same h (spec i s) = add_spec-Clean p now k same w h i s
serve-Clean p now k w same h (no_spec i s) = remove_spec-Clean p now k same w h i s
serve-Clean p now k w same h (web_link i l u) = set_web_link-Clean p now k same w h i l u
serve-Clean p now k w same h (no_web_link i l) = remove_web_link-Clean p now k same w h i l
serve-Clean p now k w same h (repo i a b c) = set_repo-Clean p now k same w h i a b c
serve-Clean p now k w same h (no_repo i) = clear_repo-Clean p now k same w h i
serve-Clean p now k w same h (file i f) = add_file-Clean p now k same w h i f
serve-Clean p now k w same h (no_file i f) = remove_file-Clean p now k same w h i f

service_kind-name : (of_story : Bool) → kind_of (service_kind of_story).name ≡ service_kind of_story
unfolding str_eq
service_kind-name true = refl
service_kind-name false = refl

run-Clean :
    {S : Type 0} (p : Palace S) (calls : List Timed) (w : World Memory)
    → Clean p w
    → Clean p (run p calls w)
unfolding run
run-Clean p [] w h = h
run-Clean p ((of_story, now, call) ∷ calls) w h =
    run-Clean p calls _
      (serve-Clean p now (service_kind of_story) w (service_kind-name of_story) h call)

find_doc-All :
    {S : Type 0} (p : Palace S) (kind id : Str) (docs : List Document) (d : Document)
    → All (IsClean p) docs
    → find_doc kind id docs ≡ some d
    → IsClean p d
unfolding find_doc
find_doc-All p kind id [] d h f = cc
find_doc-All p kind id (e ∷ docs) d (c, h) f = elim (Bool-cases (has_key kind id e)) [
  | inl here ↦ let found : e ≡ d = ground arith in subst (IsClean p) found c
  | inr there ↦ find_doc-All p kind id docs d h (ground arith)
]

-- In a memory store whose documents `check` accepts, after any calls of the operations that `Call`
-- lists, on plans and on stories, at any times, every document that `Get` returns keeps the rules
-- of `invariants`, that of the assignee among them. Create, Update, PatchFrontMatter, Delete and
-- the calls of templates are not in the list.
pub run-IsConsistent :
    {S : Type 0} (p : Palace S) (calls : List Timed) (w : World Memory) (kind id : Str)
    (d : Document)
    → Clean p w
    → get p.letters.lower kind id (run p calls w).store ≡ ok d
    → IsConsistent p (kind_of d.kind) d
unfolding get
run-IsConsistent p calls w kind id d h found =
    let kept = run-Clean p calls w h in
    elim (Option-cases (find_doc kind id (run p calls w).store.docs)) [
      | inl missing ↦ absurd (ground (arith, missing))
      | inr (e, there) ↦
          let same : e ≡ d = ground (arith, there) in
          check-nil p (kind_of d.kind) d (
            subst (IsClean p) same (find_doc-All p kind id (run p calls w).store.docs e kept there))
    ]
