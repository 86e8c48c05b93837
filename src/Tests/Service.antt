-- ===== src/Tests/Service.antt =====
-- The services on a small palace over the memory plugin.
use clued.Base.{
  ◌≡◌, ◌⊎◌, refl, Bool, true, false, none, some, List, [], ◌∷◌, ◌++◌, All, map, Str, bytes, newline,
  Result, ok, err,
}
use clued.Model.{FrontMatter, Document, pos, story, id_of}
use clued.Config.{has_status, normalize_status}
use clued.Config.Defaults.{default_plans, default_stories}
use clued.Store.Plugin.{Failure}
use clued.Store.Memory.{Memory, get}
use clued.Service.{
  Kind, story_kind, Error, validation, title_mismatch, conflict, refused, Palace, updated, World,
  config_of, in_progress,
}
use clued.Service.Resolving.{resolve}
use clued.Service.Saving.{save}
use clued.Service.Fields.{moved, with_path, set_status, set_title}
use clued.Service.Claiming.{Around, assigned, claim, normalize_assignee}
use clued.Service.Saved.{IsConsistent, event_of, written, save-IsConsistent}
use clued.Service.Gates.{IsAllowed, set_status-IsAllowed}
use clued.Service.Claims.{IsTaken, claim-IsTaken}
use clued.Service.Histories.{kind_of, over_memory, over_memory-IsLawful}
use clued.Service.Runs.{Timed, status, title, milestone, run, run-IsConsistent}
use clued.Tests.Names.{ascii_case}
use clued.Tests.Markdown.{ascii_folding}

abbrev settings : Palace (Unit {0})
settings = record {
  get = λ kind id s. err Failure.not_found;
  put = λ d s. (s, err refused);
  list = λ kind s. ok [];
  plans = default_plans;
  stories = default_stories;
  timestamp = bytes "T1";
  reformat = λ layout s. none;
  reformat_date = λ s. none;
  schema_problems = λ kind fm. [];
  letters = ascii_case;
  folding = ascii_folding;
}

abbrev pub palace : Palace Memory
palace = over_memory settings

abbrev pub ready_story : Document
ready_story = record {
  kind = story;
  path = bytes "0001-abc-feat-fix-it.md";
  front_matter = record {
    id = bytes "0001-abc";
    title = bytes "Fix it";
    purpose = [];
    type = bytes "feat";
    status = bytes "ready";
    priority = bytes "2";
    effort = [];
    created = [];
    updated = [];
    started = [];
    completed = [];
    tags = [];
    milestone = [];
    due_date = [];
    planned_start = [];
    planned_end = [];
    order = pos 0;
    assignee = [];
    links = none;
    progress = [];
  };
  content = bytes "# Fix it" ++ (newline ∷ []);
}

abbrev world : World Memory
world = record { store = record { docs = ready_story ∷ []; fail_writes = false }; events = [] }

abbrev started_story : Document
started_story =
    written palace story_kind updated
      (with_path palace [] (moved palace story_kind ready_story in_progress))

set_status-IsAllowed_example :
    (normalize_status ascii_case default_stories (bytes "start")
      ≡ some started_story.front_matter.status)
    × (((started_story ≡ ready_story)
          × ((set_status palace story_kind (bytes "1-abc") (bytes "start") false world).0 ≡ world))
        ⊎ (IsAllowed palace world.store story_kind ready_story started_story.front_matter.status
              false
            × (has_status default_stories started_story.front_matter.status ≡ true)))
unfolding resolve set_status clued.Base.trim_space clued.Model.Ids.is_id
    clued.Model.Ids.normalize_id get clued.Base.str_eq clued.Service.Resolving.normalize_dates
    clued.Service.Fields.apply_status normalize_status clued.Config.can_transition
    clued.Base.contains clued.Base.lookup clued.Model.Linking.plan_links
    clued.Model.Linking.story_links save clued.Config.normalize_type
    clued.Service.Resolving.normalize_timestamps clued.Config.status clued.Service.Saving.stamped
    clued.Service.Saving.normalized moved clued.Markdown.set_h1 clued.Markdown.first_h1
    clued.Base.split_lines clued.Base.join_lines clued.Markdown.step_fence clued.Markdown.h1
    clued.Markdown.heading_behind clued.Model.Ids.parse_file_name clued.Model.Ids.parse_rest
    clued.Model.Ids.is_slug clued.Model.Ids.file_name clued.Service.Saving.path_for
    clued.Base.has_prefix clued.Base.any clued.Service.Saving.store_checked clued.Store.Memory.put
    clued.Store.Memory.set_doc clued.Model.is_kind
set_status-IsAllowed_example =
    set_status-IsAllowed palace story_kind (bytes "1-abc") (bytes "start") false ready_story
      started_story world refl refl

abbrev save_started : World Memory × Result Error Document
save_started = save palace story_kind updated (bytes "setTitle") ready_story world

abbrev saved_story : Document
saved_story = written palace story_kind updated ready_story

save-IsConsistent_example :
    IsConsistent palace story_kind saved_story
    × (palace.get story (id_of saved_story) save_started.0.store ≡ ok saved_story)
    × (save_started.0.events
        ≡ event_of palace story_kind updated (bytes "setTitle") saved_story ∷ [])
unfolding clued.Base.trim_space clued.Model.Ids.is_id clued.Model.Ids.normalize_id get
    clued.Base.str_eq clued.Service.Resolving.normalize_dates normalize_status
    clued.Config.can_transition clued.Base.contains clued.Base.lookup clued.Model.Linking.plan_links
    clued.Model.Linking.story_links save clued.Config.normalize_type
    clued.Service.Resolving.normalize_timestamps clued.Config.status clued.Service.Saving.stamped
    clued.Service.Saving.normalized moved clued.Markdown.set_h1 clued.Markdown.first_h1
    clued.Base.split_lines clued.Base.join_lines clued.Markdown.step_fence clued.Markdown.h1
    clued.Markdown.heading_behind clued.Model.Ids.parse_file_name clued.Model.Ids.parse_rest
    clued.Model.Ids.is_slug clued.Model.Ids.file_name clued.Service.Saving.path_for
    clued.Base.has_prefix clued.Base.any clued.Service.Saving.store_checked clued.Store.Memory.put
    clued.Store.Memory.set_doc clued.Model.is_kind
save-IsConsistent_example =
    save-IsConsistent palace story_kind updated (bytes "setTitle") ready_story saved_story world
      (over_memory-IsLawful settings) refl

abbrev octocat : Str
octocat = bytes "github:octocat"

abbrev taken_story : Document
taken_story = written palace story_kind updated (
    with_path palace []
      (moved palace story_kind (assigned palace story_kind octocat ready_story) in_progress))

-- Between the claim's read under the lock and its write, somebody sets another assignee.
abbrev set_between : Around Memory
set_between = record {
  waiting = λ s. s;
  locked = true;
  between = λ s. record s { docs = map (assigned palace story_kind (bytes "github:hubot")) s.docs };
  meanwhile = λ s. s;
}

claim-IsTaken_example :
    IsTaken palace story_kind octocat false ready_story taken_story world.store
      (claim palace story_kind set_between (bytes "1-abc") octocat false world).0.store
unfolding resolve claim clued.Base.trim_space clued.Model.Ids.is_id clued.Model.Ids.normalize_id get
    clued.Base.str_eq clued.Service.Resolving.normalize_dates clued.Service.Fields.apply_status
    normalize_status clued.Config.can_transition clued.Base.contains clued.Base.lookup
    clued.Model.Linking.plan_links clued.Model.Linking.story_links save clued.Config.normalize_type
    clued.Service.Resolving.normalize_timestamps clued.Config.status clued.Service.Saving.stamped
    clued.Service.Saving.normalized moved clued.Markdown.set_h1 clued.Markdown.first_h1
    clued.Base.split_lines clued.Base.join_lines clued.Markdown.step_fence clued.Markdown.h1
    clued.Markdown.heading_behind clued.Model.Ids.parse_file_name clued.Model.Ids.parse_rest
    clued.Model.Ids.is_slug clued.Model.Ids.file_name clued.Service.Saving.path_for
    clued.Base.has_prefix clued.Base.any clued.Service.Saving.store_checked clued.Store.Memory.put
    clued.Store.Memory.set_doc clued.Model.is_kind normalize_assignee clued.Base.contains_white
    clued.Service.Claiming.take_over clued.Service.Claiming.confirm clued.Service.Claiming.is_lost
claim-IsTaken_example =
    claim-IsTaken palace story_kind set_between (bytes "1-abc") octocat octocat false ready_story
      ready_story taken_story world refl refl refl refl refl

abbrev calls : List Timed
calls =
    (true, bytes "T0", title (bytes "1-abc") [] false)
    ∷ (true, bytes "T1", status (bytes "1-abc") (bytes "start") false)
    ∷ []

run-IsConsistent_example : IsConsistent settings (kind_of started_story.kind) started_story
unfolding resolve set_status clued.Base.trim_space clued.Model.Ids.is_id
    clued.Model.Ids.normalize_id get clued.Base.str_eq clued.Service.Resolving.normalize_dates
    clued.Service.Fields.apply_status normalize_status clued.Config.can_transition
    clued.Base.contains clued.Base.lookup clued.Model.Linking.plan_links
    clued.Model.Linking.story_links save clued.Config.normalize_type
    clued.Service.Resolving.normalize_timestamps clued.Config.status clued.Service.Saving.stamped
    clued.Service.Saving.normalized moved clued.Markdown.set_h1 clued.Markdown.first_h1
    clued.Base.split_lines clued.Base.join_lines clued.Markdown.step_fence clued.Markdown.h1
    clued.Markdown.heading_behind clued.Model.Ids.parse_file_name clued.Model.Ids.parse_rest
    clued.Model.Ids.is_slug clued.Model.Ids.file_name clued.Service.Saving.path_for
    clued.Base.has_prefix clued.Base.any clued.Service.Saving.store_checked clued.Store.Memory.put
    clued.Store.Memory.set_doc clued.Model.is_kind run clued.Service.Runs.serve
    clued.Service.Fields.set_title clued.Service.Saving.check clued.Base.str_lt
run-IsConsistent_example =
    run-IsConsistent settings calls world story (bytes "0001-abc") started_story (refl, tt) refl

-- A title that ends in a hash is refused: its H1 reads without the hash.
refused_title :
    (set_title palace story_kind (bytes "1-abc") (bytes "Port to C#") false world).1
    ≡ err (validation (title_mismatch ∷ []))
unfolding resolve set_status clued.Base.trim_space clued.Model.Ids.is_id
    clued.Model.Ids.normalize_id get clued.Base.str_eq clued.Service.Resolving.normalize_dates
    clued.Service.Fields.apply_status normalize_status clued.Config.can_transition
    clued.Base.contains clued.Base.lookup clued.Model.Linking.plan_links
    clued.Model.Linking.story_links save clued.Config.normalize_type
    clued.Service.Resolving.normalize_timestamps clued.Config.status clued.Service.Saving.stamped
    clued.Service.Saving.normalized moved clued.Markdown.set_h1 clued.Markdown.first_h1
    clued.Base.split_lines clued.Base.join_lines clued.Markdown.step_fence clued.Markdown.h1
    clued.Markdown.heading_behind clued.Model.Ids.parse_file_name clued.Model.Ids.parse_rest
    clued.Model.Ids.is_slug clued.Model.Ids.file_name clued.Service.Saving.path_for
    clued.Base.has_prefix clued.Base.any clued.Service.Saving.store_checked clued.Store.Memory.put
    clued.Store.Memory.set_doc clued.Model.is_kind clued.Service.Fields.set_title
refused_title = refl
