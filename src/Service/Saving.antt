-- ===== src/Service/Saving.antt =====
-- `pathFor`, `check`, `invariants` and `save` of mind-palace/service/service.go.
use clued.Base.{
  Bool, true, false, not, ◌||◌, Option, none, some, List, [], ◌∷◌, ◌++◌, map, Str, bytes, is_empty,
  str_eq, str_lt, has_prefix, if◌then◌else◌, Result, ok, err,
}
use clued.Model.{Link, ProgressEntry, FrontMatter, Document, id_of, story}
use clued.Model.Ids.{normalize_id, slugify, file_name, parse_file_name}
use clued.Model.Linking.{plan_links, story_links}
use clued.Config.{has_status, normalize_type}
use clued.Markdown.{first_h1, set_h1}
use clued.Service.{
  Kind, Problem, schema, unknown_type, unknown_status, title_mismatch, planned_dates,
  no_assignee_field, bad_file_name, id_mismatch, type_mismatch, misplaced, self_link, Error,
  validation, storage, partly_stored, fanned_out, refused, Palace, Action, created, updated,
  event_type, World, config_of, archived,
}
use clued.Service.Resolving.{normalize_dates, normalize_timestamps}

-- The slug that `pathFor` takes: the one given, or that of the path, or that of the title.
unfoldable pub slug_for : {S : Type 0} → Palace S → Document → Str → Str
slug_for p d slug =
    if is_empty slug
    then elim (parse_file_name p.letters d.path) [
      | some (id, typ, cur) ↦ cur
      | none ↦ slugify p.letters d.front_matter.title
    ]
    else slug

unfoldable pub path_for : {S : Type 0} → Palace S → Document → Str → Str
unfolding slug_for
path_for p d slug =
    let name = file_name p.letters d.front_matter.id d.front_matter.type (slug_for p d slug) in
    if str_eq d.front_matter.status archived then bytes "archive" ++ (b'/' ∷ name) else name

abbrev pub with_id : Link → Link
with_id l = record l { id = normalize_id l.id }

-- `NormalizeIDs`
unfoldable pub normalize_ids : FrontMatter → FrontMatter
normalize_ids fm = record fm {
  links = elim fm.links [
    | none ↦ none
    | some ls ↦ some (record ls { stories = map with_id ls.stories; plans = map with_id ls.plans })
  ];
  progress =
      map
        (λ (e : Str × ProgressEntry).
          (e.0, record (e.1) { stories = map normalize_id (e.1).stories }))
        fm.progress;
}

-- `checkPlannedDates` of mind-palace/service/schedule.go: whether it finds no error.
unfoldable pub has_planned_dates : FrontMatter → Bool
has_planned_dates fm =
    is_empty fm.planned_start
    || is_empty fm.planned_end
    || not (str_lt fm.planned_end fm.planned_start)

abbrev pub problem_unless : Bool → Problem → List Problem
problem_unless true p = []
problem_unless false p = p ∷ []

abbrev pub is_some {ℓ} : {A : Type ℓ} → Option A → Bool
is_some none = false
is_some (some a) = true

abbrev pub is_title : Option Str → Str → Bool
is_title none title = false
is_title (some h) title = str_eq h title

-- The problems of a path.
unfoldable pub path_problems : {S : Type 0} → Palace S → Str → FrontMatter → List Problem
path_problems p path fm = elim (parse_file_name p.letters path) [
  | none ↦ bad_file_name ∷ []
  | some (id, typ, slug) ↦
      (if not (str_eq id fm.id)
        then id_mismatch ∷ []
        else if not (str_eq typ fm.type)
        then type_mismatch ∷ []
        else [])
      ++ (if has_prefix path (bytes "archive/")
          then problem_unless (str_eq fm.status archived) misplaced
          else problem_unless (not (str_eq fm.status archived)) misplaced)
]

-- `sameKindLinks`
unfoldable pub same_kind_links : Kind → FrontMatter → List Link
same_kind_links k fm = if str_eq k.name story then story_links fm else plan_links fm

unfoldable pub self_links : Str → List Link → List Problem
self_links id [] = []
self_links id (l ∷ links) = problem_unless (not (str_eq l.id id)) self_link ++ self_links id links

unfoldable pub invariants : {S : Type 0} → Palace S → Kind → Document → List Problem
unfolding has_planned_dates path_problems same_kind_links self_links
invariants p k d =
    let fm = d.front_matter in
    problem_unless (is_some (normalize_type p.letters (config_of p k) fm.type)) unknown_type
    ++ (problem_unless (has_status (config_of p k) fm.status) unknown_status
        ++ (problem_unless (is_title (first_h1 d.content) fm.title) title_mismatch
            ++ (problem_unless (has_planned_dates fm) planned_dates
                ++ (problem_unless (is_empty fm.assignee || k.has_assignee) no_assignee_field
                    ++ (path_problems p d.path fm ++ self_links fm.id (same_kind_links k fm))))))

-- The document with its front matter as `check` normalises it.
unfoldable pub normalized : {S : Type 0} → Palace S → Document → Document
unfolding normalize_ids
normalized p d = record d {
  front_matter = normalize_ids (normalize_dates p (normalize_timestamps p d.front_matter));
}

-- The problems that `check` returns.
unfoldable pub check : {S : Type 0} → Palace S → Kind → Document → List Problem
unfolding invariants
check p k d = map schema (p.schema_problems k.name d.front_matter) ++ invariants p k d

-- The document as `save` stamps it.
unfoldable pub stamped : {S : Type 0} → Palace S → Kind → Action → Document → Document
stamped p k action d = record d {
  kind = k.name;
  front_matter = record (d.front_matter) {
    updated = elim action [ created ↦ d.front_matter.created | updated ↦ p.timestamp ];
  };
  content = set_h1 d.content d.front_matter.title;
}

unfoldable pub publish :
    {S : Type 0} → Palace S → Kind → Action → Str → Document → World S → World S
publish p k action op d w = record w {
  events =
      record {
        type = event_type k action;
        kind = k.name;
        id = id_of d;
        operation = op;
        at = p.timestamp;
        document = d;
      }
      ∷ w.events;
}

-- What follows `check` in `save`.
unfoldable pub store_checked :
    {S : Type 0}
    → Palace S
    → Kind
    → Action
    → Str
    → Document
    → World S
    → World S × Result Error Document
unfolding publish
store_checked p k action op d w =
    let (s, answer) = p.put d w.store in
    let w' = record w { store = s } in
    elim answer [
      | ok _ ↦ (publish p k action op d w', ok d)
      | err fanned_out ↦ (publish p k action op d w', err (partly_stored d))
      | err refused ↦ (w', err storage)
    ]

unfoldable pub save :
    {S : Type 0}
    → Palace S
    → Kind
    → Action
    → Str
    → Document
    → World S
    → World S × Result Error Document
unfolding stamped normalized check store_checked
save p k action op d w =
    let d' = normalized p (stamped p k action d) in
    elim (check p k d') [
      | [] ↦ store_checked p k action op d' w
      | problem ∷ more ↦ (w, err (validation (problem ∷ more)))
    ]
