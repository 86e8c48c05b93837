-- ===== src/Tests/Names.antt =====
-- Ids, file names and the built-in settings on concrete values.
use clued.Base.{
  ◌≡◌, refl, true, not, none, some, List, [], ◌∷◌, ◌++◌, ◌||◌, ◌&&◌, map, Str, bytes, arith,
}
use clued.Model.Ids.{
  is_id, normalize_id, is_slug, LetterCase, lower_char, slugify, file_name, parse_file_name,
}
use clued.Model.Slugs.{slugify-is_slug}
use clued.Model.FileNames.{parse_file_name-file_name}
use clued.Config.{has_status, can_transition, validate, default_status, normalize_status}
use clued.Config.Defaults.{default_stories}
use clued.Config.Workflow.{can_transition-validate}

abbrev pub ascii_case : LetterCase
ascii_case = record { lower = map lower_char; lower_ascii = λ s h. refl }

slugify_long : slugify ascii_case (bytes " Fix: the  Parser! ") ≡ bytes "fix-the-parser"
unfolding slugify
slugify_long = refl

slugify-is_slug_example : is_slug (slugify ascii_case (bytes "Fix it")) ≡ true
slugify-is_slug_example = slugify-is_slug ascii_case (bytes "Fix it")

parse_file_name-file_name_example :
    (parse_file_name ascii_case
        (file_name ascii_case (bytes "0007-abc") (bytes "feat") (bytes "fix-it"))
      ≡ some (bytes "0007-abc", bytes "feat", bytes "fix-it"))
    × (parse_file_name ascii_case (
          bytes "archive"
          ++ (b'/' ∷ file_name ascii_case (bytes "0007-abc") (bytes "feat") (bytes "fix-it")))
        ≡ some (bytes "0007-abc", bytes "feat", bytes "fix-it"))
unfolding is_id is_slug
parse_file_name-file_name_example =
    parse_file_name-file_name ascii_case (bytes "archive") (bytes "0007-abc") (bytes "feat")
      (bytes "fix-it") refl ((refl, (refl, (refl, (refl, tt)))), omega arith, omega arith) refl

can_transition-validate_example :
    (has_status default_stories default_status ≡ true)
    × ((not (can_transition default_stories (bytes "ready") (bytes "in_progress"))
          || (has_status default_stories (bytes "ready")
              && has_status default_stories (bytes "in_progress")))
        ≡ true)
unfolding validate can_transition clued.Config.status clued.Base.any clued.Base.lookup
    clued.Base.contains clued.Base.str_eq
can_transition-validate_example =
    can_transition-validate default_stories (bytes "ready") (bytes "in_progress") refl

normalize_done :
    normalize_status ascii_case default_stories (bytes " Done ") ≡ some (bytes "complete")
unfolding normalize_status clued.Base.trim_space clued.Base.str_eq
normalize_done = refl

normalize_short : normalize_id (bytes "7-abc") ≡ bytes "0007-abc"
unfolding normalize_id
normalize_short = refl
