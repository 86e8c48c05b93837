-- ===== src/Tests/Markdown.antt =====
-- The content of a document on concrete texts.
use clued.Base.{
  ◌≡◌, refl, true, false, none, some, List, [], ◌∷◌, ◌++◌, map, Str, bytes, str_eq, newline, ok,
  err, Result,
}
use clued.Model.Ids.{lower_char}
use clued.Base.{str_eq_refl}
use clued.Markdown.{Folding, first_h1, set_h1}
use clued.Markdown.Criteria.{
  Criterion, criteria, set_criterion, add_criterion, remove_criterion, state_done,
}
use clued.Markdown.Setting.{with_state, criteria-set_criterion}
use clued.Markdown.FrontMatter.{unlines, tidy_content, render, split, split-render}
use clued.Markdown.WorkLog.{append_work_log, work_log_entries}

abbrev pub ascii_folding : Folding
ascii_folding = record {
  equal_fold = λ s t. str_eq (map lower_char s) (map lower_char t);
  upper = λ s. s;
  equal_fold_refl = λ s. str_eq_refl (map lower_char s);
}

abbrev row : Str → Str
row s = s ++ (newline ∷ [])

abbrev content : Str
content =
    row (bytes "# Fix it")
    ++ (row (bytes "```")
        ++ (row (bytes "## Acceptance criteria")
            ++ (row (bytes "```")
                ++ (row (bytes "## acceptance criteria ##")
                    ++ (row (bytes "- [ ] VERIFY: it builds")
                        ++ (row (bytes "* [X] shown") ++ row (bytes "## Work Log")))))))

first_h1_content : first_h1 content ≡ some (bytes "Fix it")
unfolding first_h1 clued.Base.split_lines clued.Markdown.step_fence clued.Markdown.heading_behind
    clued.Base.trim_space
first_h1_content = refl

states :
    map
      (λ (c : Criterion). c.state)
      (elim (criteria ascii_folding content) [ none ↦ [] | some cs ↦ cs ])
    ≡ bytes "open" ∷ bytes "done" ∷ []
unfolding criteria clued.Markdown.find_section clued.Markdown.section_from clued.Markdown.lines
    clued.Markdown.Criteria.items_from clued.Base.split_lines clued.Markdown.step_fence
    clued.Base.trim_space clued.Markdown.h1 clued.Markdown.heading_behind str_eq
    clued.Base.has_prefix
states = refl

work_log :
    work_log_entries ascii_folding
      (append_work_log ascii_folding content (bytes "T") (bytes " did "))
    ≡ bytes "T - did" ∷ []
unfolding append_work_log work_log_entries clued.Markdown.find_section clued.Markdown.section_from
    clued.Markdown.lines clued.Base.split_lines clued.Base.join_lines clued.Markdown.step_fence
    clued.Base.trim_space clued.Markdown.h1 clued.Markdown.heading_behind str_eq
    clued.Base.has_prefix
work_log = refl

abbrev first_item : Criterion
first_item = record {
  position = 1;
  text = bytes "it builds";
  kind = bytes "verify";
  state = bytes "open";
  line = 5;
}

abbrev second_item : Criterion
second_item = record { position = 2; text = bytes "shown"; kind = []; state = state_done; line = 6 }

criteria-set_criterion_example :
    (content' : Str) × (set_criterion ascii_folding content 1 state_done ≡ ok content')
    × (criteria ascii_folding content'
        ≡ some (with_state 1 state_done (first_item ∷ second_item ∷ [])))
unfolding criteria clued.Markdown.find_section clued.Markdown.section_from clued.Markdown.lines
    clued.Markdown.Criteria.items_from clued.Base.split_lines clued.Markdown.step_fence
    clued.Base.trim_space clued.Markdown.h1 clued.Markdown.heading_behind str_eq
    clued.Base.has_prefix clued.Base.contains
criteria-set_criterion_example =
    criteria-set_criterion ascii_folding content state_done 1 (first_item ∷ second_item ∷ [])
      first_item refl refl refl

abbrev yaml : List Str
yaml = bytes "id: 0001-abc" ∷ bytes "title: Fix it" ∷ []

split-render_example :
    split (render (unlines yaml) (bytes "# Fix it"))
    ≡ ok (unlines yaml, tidy_content (bytes "# Fix it"))
unfolding clued.Markdown.FrontMatter.trim_right str_eq clued.Base.any
split-render_example =
    split-render yaml (bytes "# Fix it") (refl, (refl, tt)) (refl, (refl, tt)) refl refl
