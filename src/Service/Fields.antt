-- ===== src/Service/Fields.antt =====
-- The status and the fields of a document in mind-palace/service/fields.go.
use clued.Base.{
  Bool, true, false, not, ◌&&◌, ◌||◌, Option, none, some, List, [], ◌∷◌, Str, bytes, is_empty,
  str_eq, any, trim_space, if◌then◌else◌, Result, ok, err, ◌>>◌, refuse_if,
}
use clued.Model.{Document}
use clued.Model.Ids.{slugify}
use clued.Config.{
  Scalar, can_transition, normalize_status, normalize_type, normalize_priority, normalize_effort,
}
use clued.Markdown.Criteria.{Criterion, criteria, state_open}
use clued.Service.{
  Kind, Error, bad_request, invalid_transition, incomplete_criteria, Palace, updated, World,
  config_of, in_progress, complete, behind,
}
use clued.Service.Resolving.{resolve}
use clued.Service.Saving.{path_for, save}
use clued.Service.Dependencies.{dependency_gate}

-- `criteriaGate`
unfoldable pub gate_of : Option (List Criterion) → Result Error (Unit {0})
unfolding any
gate_of none = err incomplete_criteria
gate_of (some []) = err incomplete_criteria
gate_of (some (c ∷ items)) =
    refuse_if (any (λ (i : Criterion). str_eq i.state state_open) (c ∷ items)) incomplete_criteria

unfoldable pub criteria_gate : {S : Type 0} → Palace S → Kind → Document → Result Error (Unit {0})
unfolding criteria gate_of
criteria_gate p k d = if k.criteria_gate then gate_of (criteria p.folding d.content) else ok tt

-- The assignments at the end of `applyStatus`.
unfoldable pub moved : {S : Type 0} → Palace S → Kind → Document → Str → Document
moved p k d to = record d {
  front_matter = record (d.front_matter) {
    status = to;
    started =
        (if str_eq to in_progress && k.tracks_started then p.timestamp else d.front_matter.started);
    completed = (if str_eq to complete then p.timestamp else d.front_matter.completed);
  };
}

-- What stands before them, once the status is known and differs.
unfoldable pub status_gates :
    {S : Type 0} → Palace S → S → Kind → Document → Str → Bool → Result Error (Unit {0})
unfolding criteria_gate dependency_gate
status_gates p s k d to force =
    refuse_if (not force && not (can_transition (config_of p k) d.front_matter.status to))
      invalid_transition
    >> ((if str_eq to complete then criteria_gate p k d else ok tt)
        >> (if not force && (str_eq to in_progress || str_eq to complete)
            then dependency_gate p s k d (str_eq to complete)
            else ok tt))

-- `applyStatus`: whether anything changed, and the document.
unfoldable pub apply_status :
    {S : Type 0} → Palace S → S → Kind → Document → Str → Bool → Result Error (Bool × Document)
unfolding status_gates moved
apply_status p s k d given force = elim (normalize_status p.letters (config_of p k) given) [
  | none ↦ err bad_request
  | some to ↦
      if str_eq to d.front_matter.status
      then ok (false, d)
      else status_gates p s k d to force >> ok (true, moved p k d to)
]

-- The document under the path that `pathFor` computes.
abbrev pub with_path : {S : Type 0} → Palace S → Str → Document → Document
with_path p slug d = record d { path = path_for p d slug }

module _ {S : Type 0} (p : Palace S) (k : Kind) where
  unfoldable pub set_status : Str → Str → Bool → World S → World S × Result Error Document
  set_status identifier status force w = behind w (resolve p k.name identifier w.store) λ d.
      behind w (apply_status p w.store k d status force) λ answer.
        if answer.0
        then save p k updated (bytes "setStatus") (with_path p [] (answer.1)) w
        else (w, ok (answer.1))

  unfoldable pub set_title : Str → Str → Bool → World S → World S × Result Error Document
  set_title identifier title rename_file w = behind w (resolve p k.name identifier w.store) λ d.
      let t = trim_space title in
      if is_empty t
      then (w, err bad_request)
      else let d' = record d { front_matter = record (d.front_matter) { title = t } } in
        let slug = (if rename_file then slugify p.letters t else []) in
        save p k updated (bytes "setTitle") (with_path p slug d') w

  unfoldable pub set_purpose : Str → Str → World S → World S × Result Error Document
  set_purpose identifier purpose w =
      if not k.has_purpose
      then (w, err bad_request)
      else behind w (resolve p k.name identifier w.store) λ d.
        let t = trim_space purpose in
        if is_empty t
        then (w, err bad_request)
        else save p k updated (bytes "setPurpose")
            (record d { front_matter = record (d.front_matter) { purpose = t } }) w

  unfoldable pub set_type : Str → Str → World S → World S × Result Error Document
  set_type identifier typ w = behind w (resolve p k.name identifier w.store) λ d.
      elim (normalize_type p.letters (config_of p k) typ) [
        | none ↦ (w, err bad_request)
        | some t ↦
            save p k updated (bytes "setType")
              (with_path p [] (record d { front_matter = record (d.front_matter) { type = t } })) w
      ]

  unfoldable pub set_priority : Str → Scalar → World S → World S × Result Error Document
  set_priority identifier priority w = behind w (resolve p k.name identifier w.store) λ d.
      elim (normalize_priority p.letters (config_of p k) priority) [
        | none ↦ (w, err bad_request)
        | some v ↦
            save p k updated (bytes "setPriority")
              (record d { front_matter = record (d.front_matter) { priority = v } }) w
      ]

  unfoldable pub set_effort : Str → Scalar → World S → World S × Result Error Document
  set_effort identifier effort w = behind w (resolve p k.name identifier w.store) λ d.
      elim (normalize_effort p.letters (config_of p k) effort) [
        | none ↦ (w, err bad_request)
        | some v ↦
            save p k updated (bytes "setEffort")
              (record d { front_matter = record (d.front_matter) { effort = v } }) w
      ]

  unfoldable pub clear_effort : Str → World S → World S × Result Error Document
  clear_effort identifier w = behind w (resolve p k.name identifier w.store) λ d.
      save p k updated (bytes "clearEffort")
        (record d { front_matter = record (d.front_matter) { effort = [] } }) w
