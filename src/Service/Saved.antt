-- ===== src/Service/Saved.antt =====
-- What `save` of mind-palace/service/service.go ensures of the documents that it writes.
use clued.Base.{
  ◌≡◌, refl, ap, ◌∙◌, Bool, true, false, not, ◌||◌, Option, none, some, List, [], ◌∷◌, map, arith,
  Str, bytes, is_empty, str_eq, str_eq_iff, has_prefix, any, nil-append, List-cases, Option-cases,
  Result-cases, ok, inl, inr,
}
use clued.Model.{Link, FrontMatter, Document, id_of}
use clued.Model.Ids.{parse_file_name}
use clued.Config.{has_status, normalize_type}
use clued.Markdown.{first_h1}
use clued.Service.{
  Kind, Problem, schema, unknown_type, unknown_status, title_mismatch, planned_dates,
  no_assignee_field, self_link, fanned_out, refused, Palace, Action, event_type, Event, World,
  config_of, archived,
}
use clued.Service.Saving.{
  has_planned_dates, problem_unless, is_some, is_title, path_problems, same_kind_links, self_links,
  invariants, normalized, check, stamped, publish, store_checked, save,
}

-- The rules beyond the schema: the file name has the document's id and type, it stands under
-- archive/ exactly if the document is archived, the H1 is the title, the type and the status are
-- configured, the planned dates are in order, no link of the kind leads back, and only a kind that
-- has assignees has one.
pub record IsConsistent {S : Type 0} (p : Palace S) (k : Kind) (d : Document) : Type 0 where
  pub named :
      (slug : Str) × (parse_file_name p.letters d.path
        ≡ some (d.front_matter.id, d.front_matter.type, slug))
  pub placed : has_prefix d.path (bytes "archive/") ≡ str_eq d.front_matter.status archived
  pub titled : first_h1 d.content ≡ some d.front_matter.title
  pub typed : is_some (normalize_type p.letters (config_of p k) d.front_matter.type) ≡ true
  pub known : has_status (config_of p k) d.front_matter.status ≡ true
  pub ordered : has_planned_dates d.front_matter ≡ true
  pub may_have_assignee : (is_empty d.front_matter.assignee || k.has_assignee) ≡ true
  pub unlinked :
      any (λ (l : Link). str_eq l.id d.front_matter.id) (same_kind_links k d.front_matter) ≡ false

problem_unless_nil : (b : Bool) (q : Problem) → problem_unless b q ≡ [] → b ≡ true
problem_unless_nil true q h = refl
problem_unless_nil false q h = cc

is_title-some : (h : Option Str) (title : Str) → is_title h title ≡ true → h ≡ some title
is_title-some none title e = cc
is_title-some (some h) title e = ground (arith, str_eq_iff h title)

self_links-nil :
    (id : Str) (links : List Link)
    → self_links id links ≡ []
    → any (λ (l : Link). str_eq l.id id) links ≡ false
unfolding self_links any
self_links-nil id [] h = refl
self_links-nil id (l ∷ links) h =
    let (first, rest) = nil-append (problem_unless (not (str_eq l.id id)) self_link) _ h in
    let other = problem_unless_nil _ self_link first in ground (arith, self_links-nil id links rest)

path_problems-nil :
    {S : Type 0} (p : Palace S) (path : Str) (fm : FrontMatter)
    → path_problems p path fm ≡ []
    → ((slug : Str) × (parse_file_name p.letters path ≡ some (fm.id, fm.type, slug)))
      × (has_prefix path (bytes "archive/") ≡ str_eq fm.status archived)
unfolding path_problems
path_problems-nil p path fm h = elim (Option-cases (parse_file_name p.letters path)) [
  | inl bad ↦ absurd (ground arith)
  | inr ((id, typ, slug), good) ↦
      let i : id ≡ fm.id = ground (arith, str_eq_iff id fm.id) in
      let t : typ ≡ fm.type = ground (arith, str_eq_iff id fm.id, str_eq_iff typ fm.type) in
      ((slug, cc), ground arith)
]

-- A document in which `invariants` finds nothing.
invariants-nil :
    {S : Type 0} (p : Palace S) (k : Kind) (d : Document)
    → invariants p k d ≡ []
    → IsConsistent p k d
unfolding invariants
invariants-nil p k d h =
    let fm = d.front_matter in
    let (a, h1) =
      nil-append
        (problem_unless (is_some (normalize_type p.letters (config_of p k) fm.type)) unknown_type) _
        h in
    let (b, h2) =
      nil-append (problem_unless (has_status (config_of p k) fm.status) unknown_status) _ h1 in
    let (c, h3) =
      nil-append (problem_unless (is_title (first_h1 d.content) fm.title) title_mismatch) _ h2 in
    let (e, h4) = nil-append (problem_unless (has_planned_dates fm) planned_dates) _ h3 in
    let (f, h5) =
      nil-append (problem_unless (is_empty fm.assignee || k.has_assignee) no_assignee_field) _ h4 in
    let (g, links) = nil-append (path_problems p d.path fm) _ h5 in
    let (name, place) = path_problems-nil p d.path fm g in
    record {
      named = name;
      placed = place;
      titled = is_title-some (first_h1 d.content) fm.title (problem_unless_nil _ title_mismatch c);
      typed = problem_unless_nil _ unknown_type a;
      known = problem_unless_nil _ unknown_status b;
      ordered = problem_unless_nil _ planned_dates e;
      may_have_assignee = problem_unless_nil _ no_assignee_field f;
      unlinked = self_links-nil fm.id (same_kind_links k fm) links;
    }

pub check-nil :
    {S : Type 0} (p : Palace S) (k : Kind) (d : Document) → check p k d ≡ [] → IsConsistent p k d
unfolding check
check-nil p k d h =
    let (a, rest) = nil-append (map schema (p.schema_problems k.name d.front_matter)) _ h in
    invariants-nil p k d rest

-- The event that `save` publishes.
abbrev pub event_of : {S : Type 0} → Palace S → Kind → Action → Str → Document → Event
event_of p k action op d = record {
  type = event_type k action;
  kind = k.name;
  id = id_of d;
  operation = op;
  at = p.timestamp;
  document = d;
}

-- The document that `save` checks and writes.
abbrev pub written : {S : Type 0} → Palace S → Kind → Action → Document → Document
written p k action d = normalized p (stamped p k action d)

store_checked-ok :
    {S : Type 0} (p : Palace S) (k : Kind) (action : Action) (op : Str) (d d' : Document)
    (w : World S)
    → (store_checked p k action op d w).1 ≡ ok d'
    → (d' ≡ d)
      × ((p.put d w.store).1 ≡ ok tt)
      × ((store_checked p k action op d w).0
          ≡ record { store = (p.put d w.store).0; events = event_of p k action op d ∷ w.events })
unfolding store_checked publish
store_checked-ok p k action op d d' w h = elim (Result-cases (p.put d w.store).1) [
  | inl (a, e) ↦ (ground (arith, e), e, rw (e, store_checked) refl)
  | inr (fanned_out, e) ↦ absurd (ground (arith, e))
  | inr (refused, e) ↦ absurd (ground (arith, e))
]

pub save-ok :
    {S : Type 0} (p : Palace S) (k : Kind) (action : Action) (op : Str) (d d' : Document)
    (w : World S)
    → (save p k action op d w).1 ≡ ok d'
    → (d' ≡ written p k action d)
      × (check p k d' ≡ [])
      × ((p.put d' w.store).1 ≡ ok tt)
      × ((save p k action op d w).0
          ≡ record { store = (p.put d' w.store).0; events = event_of p k action op d' ∷ w.events })
unfolding save
save-ok p k action op d d' w h = elim (List-cases (check p k (written p k action d))) [
  | inl clean ↦
      let x = written p k action d in
      let opened : save p k action op d w ≡ store_checked p k action op x w =
        rw (clean, save) refl in
      let answer : (store_checked p k action op x w).1 ≡ ok d' = cc in
      let (same, stored, world) = store_checked-ok p k action op x d' w answer in
      (same, rw same clean, rw same stored, ap (λ r. r.0) opened ∙ rw same world)
  | inr (problem, more, found) ↦ absurd (ground (arith, found))
]

-- What the documentation of the store promises of `Put`.
pub record IsLawful {S : Type 0} (p : Palace S) : Type 0 where
  pub get-put :
      (d : Document) (s : S) → (p.put d s).1 ≡ ok tt → p.get d.kind (id_of d) (p.put d s).0 ≡ ok d

-- A document that `save` returns without an error keeps the rules of `invariants`, that of the
-- assignee among them, a store whose `Get` returns what `Put` wrote returns it, and exactly one
-- event tells of it.
pub save-IsConsistent :
    {S : Type 0} (p : Palace S) (k : Kind) (action : Action) (op : Str) (d d' : Document)
    (w : World S)
    → IsLawful p
    → (save p k action op d w).1 ≡ ok d'
    → IsConsistent p k d'
      × (p.get k.name (id_of d') (save p k action op d w).0.store ≡ ok d')
      × ((save p k action op d w).0.events ≡ event_of p k action op d' ∷ w.events)
unfolding stamped normalized
save-IsConsistent p k action op d d' w lawful h =
    let (same, clean, stored, world) = save-ok p k action op d d' w h in
    let kept = lawful.get-put d' w.store stored in
    let named : d'.kind ≡ k.name = ap (λ (e : Document). e.kind) same in
    (check-nil p k d' clean, cc, cc)
