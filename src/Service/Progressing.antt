-- ===== src/Service/Progressing.antt =====
-- The progress of a document in mind-palace/service/progress.go.
use clued.Base.{
  Bool, true, false, not, ◌&&◌, Option, none, some, List, [], ◌∷◌, ◌++◌, any, Str, bytes, str_eq,
  trim_space, contains, keep, lookup, insert, delete, ◌==◌, if◌then◌else◌, Result, ok, err, ◌>>◌,
  refuse_if,
}
use clued.Model.{ProgressEntry, Document, story}
use clued.Model.Ids.{is_digit, is_id, normalize_id}
use clued.Config.{normalize_status, default_status}
use clued.Markdown.Numbers.{section_numbers, has_section}
use clued.Service.{
  Kind, Dependency, Error, bad_request, unknown_section, unknown_step, Palace, updated, World,
  config_of, in_progress, complete, behind,
}
use clued.Service.Resolving.{resolve}
use clued.Service.Saving.{save}
use clued.Service.Dependencies.{open_dependencies}
use clued.Service.Fields.{criteria_gate, apply_status, with_path}
use clued.Service.Relating.{is_section_number, has_entry}

-- `^[0-9]+(\.[0-9]+)*$`; the flag tells whether a digit stands before.
unfoldable pub is_step_from : Bool → Str → Bool
is_step_from digit [] = digit
is_step_from digit (c ∷ s) =
    if is_digit c then is_step_from true s else digit && (c == b'.') && is_step_from false s

-- `ProgressKeyRe` of the kind.
unfoldable pub is_progress_key : Kind → Str → Bool
unfolding is_step_from
is_progress_key k s = if str_eq k.name story then is_step_from false s else is_section_number s

-- The error that `UnknownProgressKeyError` names.
abbrev pub unknown_key : Kind → Error
unknown_key k =
    if str_eq k.unknown_progress_key_error (bytes "UnknownSection")
    then unknown_section
    else unknown_step

-- `requireSection`
unfoldable pub require_section : Kind → Document → Str → Result Error Str
unfolding is_progress_key
require_section k d given =
    let section = trim_space given in
    refuse_if (not (is_progress_key k section)) bad_request
    >> (refuse_if (not (has_section d.content section)) (unknown_key k) >> ok section)

abbrev pub entry_or : Str → Option ProgressEntry → ProgressEntry
entry_or status none = record { status = status; stories = [] }
entry_or status (some e) = e

abbrev pub with_entry : Str → ProgressEntry → Document → Document
with_entry section e d = record d {
  front_matter = record (d.front_matter) { progress = insert section e d.front_matter.progress };
}

-- `allStepsComplete`
unfoldable pub all_steps_complete : Document → Bool
all_steps_complete d =
    let sections = section_numbers d.content in
    not (elim sections as (λ x. Bool) [ [] ↦ true | n ∷ rest ↦ false ])
    && not (
        any (λ n. not (str_eq (entry_or [] (lookup n d.front_matter.progress)).status complete))
          sections)

-- Whether nothing is open and the criteria are closed.
abbrev pub may_complete : List Dependency → Result Error (Unit {0}) → Bool
may_complete [] (ok u) = true
may_complete [] (err e) = false
may_complete (dep ∷ more) r = false

module _ {S : Type 0} (p : Palace S) (k : Kind) where
  -- The document completes itself.
  unfoldable pub complete_itself : Document → World S → World S × Result Error Document
  complete_itself d w = behind w (open_dependencies p w.store k d true) λ found.
      if may_complete found (criteria_gate p k d)
      then (behind w (apply_status p w.store k d complete true)
          λ answer. save p k updated (bytes "setProgress") (with_path p [] (answer.1)) w)
      else save p k updated (bytes "setProgress") d w

  unfoldable pub set_progress : Str → Str → Str → World S → World S × Result Error Document
  set_progress identifier given status w = behind w (resolve p k.name identifier w.store) λ d.
      behind w (require_section k d given) λ section.
        elim (normalize_status p.letters (config_of p k) status) [
          | none ↦ (w, err bad_request)
          | some st ↦
              let e = entry_or [] (lookup section d.front_matter.progress) in
              let d' = with_entry section (record e { status = st }) d in
              if k.auto_complete
                && str_eq st complete
                && str_eq d'.front_matter.status in_progress
                && all_steps_complete d'
              then complete_itself d' w
              else save p k updated (bytes "setProgress") d' w
        ]

  unfoldable pub add_progress_story : Str → Str → Str → World S → World S × Result Error Document
  add_progress_story identifier given story_id w =
      if not k.progress_stories
      then (w, err bad_request)
      else behind w (resolve p k.name identifier w.store) λ d.
        behind w (require_section k d given) λ section.
          let id = normalize_id story_id in
          let e = entry_or default_status (lookup section d.front_matter.progress) in
          if not (is_id id)
          then (w, err bad_request)
          else if contains e.stories id
          then (w, ok d)
          else save p k updated (bytes "addProgressStory")
              (with_entry section (record e { stories = e.stories ++ id ∷ [] }) d) w

  unfoldable pub remove_progress_story : Str → Str → Str → World S → World S × Result Error Document
  remove_progress_story identifier section story_id w =
      if not k.progress_stories
      then (w, err bad_request)
      else behind w (resolve p k.name identifier w.store) λ d.
        let id = normalize_id story_id in
        elim (lookup section d.front_matter.progress) [
          | none ↦ (w, err (unknown_key k))
          | some e ↦
              if not (contains e.stories id)
              then (w, err Error.not_found)
              else save p k updated (bytes "removeProgressStory")
                  (with_entry section
                    (record e { stories = keep (λ x. not (str_eq x id)) e.stories }) d)
                  w
        ]

  unfoldable pub remove_progress : Str → Str → World S → World S × Result Error Document
  remove_progress identifier given w = behind w (resolve p k.name identifier w.store) λ d.
      let section = trim_space given in
      if not (has_entry (lookup section d.front_matter.progress))
      then (w, err (unknown_key k))
      else save p k updated (bytes "removeProgress")
          (record d {
            front_matter = record (d.front_matter) {
              progress = delete section d.front_matter.progress;
            };
          })
          w
