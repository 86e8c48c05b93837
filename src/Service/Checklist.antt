-- ===== src/Service/Checklist.antt =====
-- The acceptance criteria and the work log of a document in mind-palace/service/criteria.go.
use clued.Base.{
  ℕ, not, ◌||◌, Option, none, some, List, [], ◌∷◌, Str, bytes, is_empty, str_eq, trim_space,
  contains, any, keep, length, ◌==◌, if◌then◌else◌, newline, Result, ok, err,
}
use clued.Model.{Document}
use clued.Markdown.Criteria.{
  Criterion, state_open, state_done, state_not_applicable, kind_verify, kind_manual, criteria,
  set_criterion, add_criterion, remove_criterion,
}
use clued.Markdown.WorkLog.{append_work_log}
use clued.Service.{Kind, Error, bad_request, unknown_criterion, Palace, updated, World, behind}
use clued.Service.Resolving.{resolve}
use clued.Service.Saving.{save}

-- `normalizeCriterionState`
unfoldable pub normalize_criterion_state : {S : Type 0} → Palace S → Str → Option Str
normalize_criterion_state p state =
    let s = p.letters.lower (trim_space state) in
    if contains (bytes "open" ∷ bytes "todo" ∷ bytes "unchecked" ∷ [] ∷ bytes " " ∷ []) s
    then some state_open
    else if contains
        (bytes "done" ∷ bytes "checked" ∷ bytes "complete" ∷ bytes "completed" ∷ bytes "x" ∷ []) s
    then some state_done
    else if contains
        (bytes "not_applicable"
          ∷ bytes "not-applicable"
          ∷ bytes "na"
          ∷ bytes "n/a"
          ∷ bytes "skip"
          ∷ bytes "skipped"
          ∷ bytes "~"
          ∷ [])
        s
    then some state_not_applicable
    else none

-- The kind of a criterion that `AddCriterion` takes.
unfoldable pub criterion_kind : {S : Type 0} → Palace S → Str → Option Str
criterion_kind p kind =
    let s = p.letters.lower (trim_space kind) in
    if contains ([] ∷ kind_verify ∷ kind_manual ∷ []) s then some s else none

-- `GetCriteria`: the criteria, and how many are open.
unfoldable pub get_criteria :
    {S : Type 0} → Palace S → Kind → Str → S → Result Error (List Criterion × ℕ)
get_criteria p k identifier s =
    if not k.criteria_gate then err bad_request else elim (resolve p k.name identifier s) [
      | err e ↦ err e
      | ok d ↦
          let items : List Criterion = elim (criteria p.folding d.content) [
            | none ↦ []
            | some found ↦ found
          ] in
          ok (items, length (keep (λ (c : Criterion). str_eq c.state state_open) items))
    ]

-- A position below 1 is refused, as 0 is here.
module _ {S : Type 0} (p : Palace S) (k : Kind) where
  unfoldable pub set_criterion_state : Str → ℕ → Str → World S → World S × Result Error Document
  set_criterion_state identifier position state w =
      if not k.criteria_gate
      then (w, err bad_request)
      else behind w (resolve p k.name identifier w.store) λ d.
        elim (normalize_criterion_state p state) [
          | none ↦ (w, err bad_request)
          | some st ↦ elim (set_criterion p.folding d.content position st) [
            | err e ↦ (w, err unknown_criterion)
            | ok content ↦
                save p k updated (bytes "setCriterion") (record d { content = content }) w
          ]
        ]

  unfoldable pub add_criterion_text : Str → Str → Str → World S → World S × Result Error Document
  add_criterion_text identifier text kind w =
      if not k.criteria_gate
      then (w, err bad_request)
      else behind w (resolve p k.name identifier w.store) λ d.
        let t = trim_space text in
        if is_empty t then (w, err bad_request) else elim (criterion_kind p kind) [
          | none ↦ (w, err bad_request)
          | some kd ↦
              save p k updated (bytes "addCriterion")
                (record d { content = add_criterion p.folding d.content t kd }) w
        ]

  unfoldable pub remove_criterion_at : Str → ℕ → World S → World S × Result Error Document
  remove_criterion_at identifier position w =
      if not k.criteria_gate
      then (w, err bad_request)
      else behind w (resolve p k.name identifier w.store) λ d.
        elim (remove_criterion p.folding d.content position) [
          | err e ↦ (w, err unknown_criterion)
          | ok content ↦
              save p k updated (bytes "removeCriterion") (record d { content = content }) w
        ]

  unfoldable pub append_entry : Str → Str → World S → World S × Result Error Document
  append_entry identifier entry w =
      if not k.work_log
      then (w, err bad_request)
      else behind w (resolve p k.name identifier w.store) λ d.
        let t = trim_space entry in
        if is_empty t || any (λ c. c == newline) t
        then (w, err bad_request)
        else save p k updated (bytes "appendWorkLog")
            (record d { content = append_work_log p.folding d.content p.timestamp t }) w
