-- ===== src/Service/Schedule.antt =====
-- The planning fields of mind-palace/service/schedule.go.
use clued.Base.{
  true, false, not, none, some, List, [], ◌∷◌, ◌++◌, Str, bytes, is_empty, str_eq, trim_space,
  contains, contains_white, keep, length, ◌==◌, if◌then◌else◌, Result, ok, err,
}
use clued.Model.{ℤ, Document}
use clued.Service.{Kind, Error, bad_request, Palace, updated, World, behind}
use clued.Service.Resolving.{normalize_date, resolve}
use clued.Service.Saving.{has_planned_dates, save}
use clued.Service.Claiming.{normalize_assignee}

-- The loop of `normalizeTags`, with `out` so far, which has the same elements as `seen`.
unfoldable pub tags_from : List Str → List Str → Result Error (List Str)
tags_from out [] = ok out
tags_from out (given ∷ tags) =
    let t = trim_space given in
    elim (is_empty t) [
      | true ↦ tags_from out tags
      | false ↦ elim (contains_white t) [
        | true ↦ err bad_request
        | false ↦ tags_from (if contains out t then out else out ++ t ∷ []) tags
      ]
    ]

unfoldable pub normalize_tags : List Str → Result Error (List Str)
unfolding tags_from
normalize_tags tags = tags_from [] tags

-- `normalizeDate`
unfoldable pub checked_date : {S : Type 0} → Palace S → Str → Result Error Str
checked_date p value = elim (normalize_date p value) [ none ↦ err bad_request | some n ↦ ok n ]

module _ {S : Type 0} (p : Palace S) (k : Kind) where
  unfoldable pub set_tags : Str → List Str → World S → World S × Result Error Document
  set_tags identifier tags w = behind w (resolve p k.name identifier w.store) λ d.
      behind w (normalize_tags tags) λ t.
        save p k updated (bytes "setTags")
          (record d { front_matter = record (d.front_matter) { tags = t } }) w

  unfoldable pub add_tag : Str → Str → World S → World S × Result Error Document
  add_tag identifier tag w = behind w (resolve p k.name identifier w.store) λ d.
      if is_empty (trim_space tag)
      then (w, err bad_request)
      else behind w (normalize_tags (d.front_matter.tags ++ tag ∷ [])) λ t.
        if length t == length d.front_matter.tags
        then (w, ok d)
        else save p k updated (bytes "addTag")
            (record d { front_matter = record (d.front_matter) { tags = t } }) w

  unfoldable pub remove_tag : Str → Str → World S → World S × Result Error Document
  remove_tag identifier tag w = behind w (resolve p k.name identifier w.store) λ d.
      let kept = keep (λ t. not (str_eq t (trim_space tag))) d.front_matter.tags in
      if length kept == length d.front_matter.tags
      then (w, ok d)
      else save p k updated (bytes "removeTag")
          (record d { front_matter = record (d.front_matter) { tags = kept } }) w

  unfoldable pub set_milestone : Str → Str → World S → World S × Result Error Document
  set_milestone identifier milestone w = behind w (resolve p k.name identifier w.store) λ d.
      save p k updated (bytes "setMilestone")
        (record d { front_matter = record (d.front_matter) { milestone = trim_space milestone } }) w

  unfoldable pub set_due_date : Str → Str → World S → World S × Result Error Document
  set_due_date identifier date w = behind w (resolve p k.name identifier w.store) λ d.
      behind w (checked_date p date) λ n.
        save p k updated (bytes "setDueDate")
          (record d { front_matter = record (d.front_matter) { due_date = n } }) w

  unfoldable pub set_planned_dates : Str → Str → Str → World S → World S × Result Error Document
  set_planned_dates identifier start end w = behind w (resolve p k.name identifier w.store) λ d.
      behind w (checked_date p start) λ a. behind w (checked_date p end) λ z.
        let fm = record (d.front_matter) { planned_start = a; planned_end = z } in
        if not (has_planned_dates fm)
        then (w, err bad_request)
        else save p k updated (bytes "setPlannedDates") (record d { front_matter = fm }) w

  unfoldable pub set_order : Str → ℤ → World S → World S × Result Error Document
  set_order identifier order w = behind w (resolve p k.name identifier w.store) λ d.
      save p k updated (bytes "setOrder")
        (record d { front_matter = record (d.front_matter) { order = order } }) w

  unfoldable pub set_assignee : Str → Str → World S → World S × Result Error Document
  set_assignee identifier assignee w =
      if not k.has_assignee
      then (w, err bad_request)
      else behind w (resolve p k.name identifier w.store) λ d.
        behind w (normalize_assignee assignee) λ a.
          save p k updated (bytes "setAssignee")
            (record d { front_matter = record (d.front_matter) { assignee = a } }) w
