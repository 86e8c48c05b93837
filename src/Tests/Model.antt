-- ===== src/Tests/Model.antt =====
-- The links of a document on concrete values.
use clued.Base.{
  ◌+◌, ◌≡◌, refl, true, not, ◌&&◌, ◌||◌, none, some, List, [], ◌∷◌, Str, bytes, is_empty, str_eq,
  keep, length,
}
use clued.Model.{Link, FrontMatter, pos}
use clued.Model.Linking.{
  no_links, plan_links, story_links, set_plan_links, is_tidy, filter_links,
  plan_links-set_plan_links, filter_links-keep,
}

abbrev link : Str → Str → Link
link id relation = record { id = id; relation = relation; sections = [] }

abbrev linked : FrontMatter
linked = record {
  id = bytes "0001-abc";
  title = [];
  purpose = [];
  type = [];
  status = [];
  priority = [];
  effort = [];
  created = [];
  updated = [];
  started = [];
  completed = [];
  tags = [];
  milestone = [];
  due_date = [];
  planned_start = [];
  planned_end = [];
  order = pos 0;
  assignee = [];
  progress = [];
  links = some (record no_links { plans = link (bytes "0002-def") (bytes "depends") ∷ [] });
}

-- The last link goes, and the `Links` with it.
set_none : (set_plan_links [] linked).links ≡ none
unfolding set_plan_links
set_none = refl

plan_links-set_plan_links_example :
    (plan_links (set_plan_links [] linked) ≡ [])
    × (story_links (set_plan_links [] linked) ≡ story_links linked)
    × (is_tidy (set_plan_links [] linked) ≡ true)
unfolding is_tidy
plan_links-set_plan_links_example = plan_links-set_plan_links [] linked refl

abbrev two_links : List Link
two_links =
    link (bytes "0002-def") (bytes "depends") ∷ link (bytes "0002-def") (bytes "blocks") ∷ []

filter_links-keep_example :
    ((filter_links (bytes "0002-def") (bytes "blocks") two_links).0
      ≡ keep
          (λ l.
            not (str_eq l.id (bytes "0002-def"))
            || (not (is_empty (bytes "blocks")) && not (str_eq l.relation (bytes "blocks"))))
          two_links)
    × ((filter_links (bytes "0002-def") (bytes "blocks") two_links).1
          + length (filter_links (bytes "0002-def") (bytes "blocks") two_links).0
        ≡ length two_links)
filter_links-keep_example = filter_links-keep (bytes "0002-def") (bytes "blocks") two_links
