-- ===== src/Service/Dependencies.antt =====
-- `openDependencies` and `dependencyGate` of mind-palace/service/dependencies.go.
use clued.Base.{
  Bool, not, ◌&&◌, ◌||◌, List, [], ◌∷◌, ◌++◌, Str, bytes, str_eq, any, if◌then◌else◌, Result, ok,
  err, ◌>>=◌,
}
use clued.Model.{Link, FrontMatter, Document, id_of, plan, story}
use clued.Model.Ids.{normalize_id}
use clued.Model.Linking.{plan_links, story_links}
use clued.Service.{
  Kind, Dependency, Error, storage, blocked_by_dependency, Palace, complete, archived,
}
use clued.Service.Resolving.{resolve}

-- The function `finished`.
abbrev pub is_finished : Str → Bool
is_finished status =
    str_eq status complete || str_eq status (bytes "rejected") || str_eq status archived

abbrev pub depends : Str
depends = bytes "depends"

abbrev pub depends_on : Str → Document → Dependency
depends_on kind d = record {
  kind = kind;
  id = id_of d;
  title = d.front_matter.title;
  status = d.front_matter.status;
  relation = depends;
}

-- What a depends link adds: the target where it is missing or not finished.
unfoldable pub waits_for : {S : Type 0} → Palace S → S → Str → Link → Result Error (List Dependency)
unfolding resolve
waits_for p s kind l =
    if not (str_eq l.relation depends) then ok [] else elim (resolve p kind l.id s) [
      | err Error.not_found ↦ ok (
          record {
            kind = kind;
            id = l.id;
            title = [];
            status = bytes "not found";
            relation = depends;
          }
          ∷ [])
      | err e ↦ err e
      | ok dep ↦ ok (if is_finished dep.front_matter.status then [] else depends_on kind dep ∷ [])
    ]

-- The loop over the links to one kind; the first error ends it.
unfoldable pub depends_from :
    {S : Type 0} → Palace S → S → Str → List Link → Result Error (List Dependency)
unfolding waits_for
depends_from p s kind [] = ok []
depends_from p s kind (l ∷ links) =
    waits_for p s kind l >>= λ found. depends_from p s kind links >>= λ rest. ok (found ++ rest)

-- Whether a blocks link of `e` names the document `id` of kind `k`.
unfoldable pub blocks_it : Kind → Str → FrontMatter → Bool
unfolding any
blocks_it k id fm =
    any (λ (l : Link). str_eq l.relation (bytes "blocks") && str_eq (normalize_id l.id) id)
      (if str_eq k.name story then story_links fm else plan_links fm)

-- The loop over the documents of one kind.
unfoldable pub blockers_from : Kind → Document → Str → List Document → List Dependency
unfolding blocks_it
blockers_from k d other [] = []
blockers_from k d other (e ∷ docs) =
    let rest = blockers_from k d other docs in
    if (str_eq other k.name && str_eq (id_of e) (id_of d)) || is_finished e.front_matter.status
    then rest
    else if blocks_it k (id_of d) e.front_matter
    then record {
      kind = other;
      id = id_of e;
      title = e.front_matter.title;
      status = e.front_matter.status;
      relation = bytes "blocked_by";
    }
      ∷ rest
    else rest

unfoldable pub blockers :
    {S : Type 0} → Palace S → S → Kind → Document → Str → Result Error (List Dependency)
unfolding blockers_from
blockers p s k d other = elim (p.list other s) [
  | err e ↦ err storage
  | ok docs ↦ ok (blockers_from k d other docs)
]

unfoldable pub open_dependencies :
    {S : Type 0} → Palace S → S → Kind → Document → Bool → Result Error (List Dependency)
unfolding depends_from blockers
open_dependencies p s k d completing =
    depends_from p s plan (plan_links d.front_matter) >>= λ plans.
    depends_from p s story (story_links d.front_matter) >>= λ stories.
    if not completing
    then ok (plans ++ stories)
    else blockers p s k d plan >>= λ plan_blockers. blockers p s k d story >>= λ story_blockers.
        ok (plans ++ (stories ++ (plan_blockers ++ story_blockers)))

unfoldable pub dependency_gate :
    {S : Type 0} → Palace S → S → Kind → Document → Bool → Result Error (Unit {0})
unfolding open_dependencies
dependency_gate p s k d completing = open_dependencies p s k d completing >>= λ found. elim found [
  | [] ↦ ok tt
  | dep ∷ more ↦ err (blocked_by_dependency (dep ∷ more))
]
