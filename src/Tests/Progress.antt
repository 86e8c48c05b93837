-- ===== src/Tests/Progress.antt =====
-- A story on a small palace that completes itself with its last step.
use clued.Base.{
  ◌≡◌, ◌⊎◌, refl, Bool, true, false, none, some, List, [], ◌∷◌, ◌++◌, Str, bytes, newline, lookup,
  ok,
}
use clued.Model.{Document}
use clued.Store.Memory.{Memory}
use clued.Service.{story_kind, updated, World, in_progress, complete}
use clued.Service.Fields.{moved, with_path}
use clued.Service.Progressing.{require_section, entry_or, with_entry, set_progress}
use clued.Service.Saved.{written}
use clued.Service.Completing.{IsDone, set_progress-IsDone}
use clued.Tests.Service.{palace, ready_story}

abbrev row : Str → Str
row s = s ++ (newline ∷ [])

abbrev started : Document
started = record ready_story {
  front_matter = record (ready_story.front_matter) { status = in_progress };
  content =
      row (bytes "# Fix it")
      ++ (row (bytes "## 1. Find it")
          ++ (row (bytes "## Acceptance Criteria") ++ row (bytes "- [x] it is gone")));
}

abbrev world : World Memory
world = record { store = record { docs = started ∷ []; fail_writes = false }; events = [] }

-- The step set to complete.
abbrev stepped : Document
stepped =
    with_entry (bytes "1")
      (record (entry_or [] (lookup (bytes "1") started.front_matter.progress)) {
        status = complete;
      })
      started

abbrev finished : Document
finished =
    written palace story_kind updated
      (with_path palace [] (moved palace story_kind stepped complete))

set_progress-IsDone_example :
    (finished.front_matter.status ≡ in_progress) ⊎ IsDone palace world.store story_kind stepped
unfolding clued.Service.Resolving.resolve set_progress clued.Base.trim_space clued.Model.Ids.is_id
    clued.Model.Ids.normalize_id clued.Store.Memory.get clued.Base.str_eq
    clued.Service.Resolving.normalize_dates clued.Service.Fields.apply_status
    clued.Config.normalize_status clued.Config.can_transition clued.Base.contains clued.Base.lookup
    clued.Model.Linking.plan_links clued.Model.Linking.story_links clued.Service.Saving.save
    clued.Config.normalize_type clued.Service.Resolving.normalize_timestamps clued.Config.status
    clued.Service.Saving.stamped clued.Service.Saving.normalized moved clued.Markdown.set_h1
    clued.Markdown.first_h1 clued.Base.split_lines clued.Base.join_lines clued.Markdown.step_fence
    clued.Markdown.h1 clued.Markdown.heading_behind clued.Model.Ids.parse_file_name
    clued.Model.Ids.parse_rest clued.Model.Ids.is_slug clued.Model.Ids.file_name
    clued.Service.Saving.path_for clued.Base.has_prefix clued.Base.any
    clued.Service.Saving.store_checked clued.Store.Memory.put clued.Store.Memory.set_doc
    clued.Model.is_kind require_section clued.Service.Progressing.all_steps_complete
    clued.Service.Progressing.complete_itself clued.Markdown.Numbers.section_numbers
    clued.Markdown.lines clued.Service.Fields.criteria_gate
    clued.Service.Dependencies.open_dependencies clued.Base.insert clued.Markdown.Criteria.criteria
    clued.Markdown.find_section clued.Markdown.section_from clued.Markdown.Criteria.items_from
    clued.Store.Memory.list clued.Base.keep clued.Service.Fields.status_gates
set_progress-IsDone_example =
    set_progress-IsDone palace story_kind (bytes "1-abc") (bytes " 1 ") (bytes "1") (bytes "done")
      complete started finished world refl refl refl refl
