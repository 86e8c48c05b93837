-- ===== src/Service/Serving.antt =====
-- Each operation of mind-palace/service leaves a memory store clean.
use clued.Base.{
  ◌≡◌, ℕ, Bool, not, ◌&&◌, ◌||◌, List, [], ◌∷◌, ◌++◌, Str, is_empty, str_eq, trim_space, keep,
  length, any, ◌==◌, newline, Result, ok, err,
}
use clued.Model.{ℤ, Document, id_of}
use clued.Config.{Scalar, normalize_type, normalize_priority, normalize_effort}
use clued.Markdown.Criteria.{set_criterion, remove_criterion}
use clued.Store.Memory.{Memory}
use clued.Service.{Kind, Error, Palace, updated, World, config_of, behind, in_progress}
use clued.Service.Resolving.{resolve}
use clued.Service.Saving.{save, has_planned_dates}
use clued.Service.Fields.{
  apply_status, set_status, set_title, set_purpose, set_type, set_priority, set_effort,
  clear_effort,
}
use clued.Service.Claiming.{
  Around, normalize_assignee, assigned, is_lost, confirm, take_over, claim,
}
use clued.Service.Schedule.{
  normalize_tags, checked_date, set_tags, add_tag, remove_tag, set_milestone, set_due_date,
  set_planned_dates, set_order, set_assignee,
}
use clued.Service.Checklist.{
  normalize_criterion_state, criterion_kind, set_criterion_state, add_criterion_text,
  remove_criterion_at, append_entry,
}
use clued.Service.Histories.{
  kind_of, at_time, Clean, save-Clean, behind-Clean, if-Clean, option-Clean, result-Clean,
}

-- Calls follow each other here, so that nothing happens around a claim.
abbrev pub alone : Bool → Around Memory
alone locked = record { waiting = λ s. s; locked = locked; between = λ s. s; meanwhile = λ s. s }

module _ {S : Type 0} (p : Palace S) (now : Str) (k : Kind) (same : kind_of k.name ≡ k)
    (w : World Memory) (h : Clean p w) where
  -- A handler that resolves the document and then saves it, or refuses.
  pub resolved-Clean :
      (identifier : Str) (f : Document → World Memory × Result Error Document)
      → ((d : Document) → Clean p (f d).0)
      → Clean p (behind w (resolve (at_time p now) k.name identifier w.store) f).0
  resolved-Clean identifier f g =
      behind-Clean p w (resolve (at_time p now) k.name identifier w.store) f h g

  pub saved-Clean : (op : Str) (d : Document) → Clean p (save (at_time p now) k updated op d w).0
  saved-Clean op d = save-Clean p now k updated op d w same h

  pub set_status-Clean :
      (i s : Str) (force : Bool) → Clean p (set_status (at_time p now) k i s force w).0
  unfolding set_status
  set_status-Clean i s force = resolved-Clean i _ λ d.
      behind-Clean p w (apply_status (at_time p now) w.store k d s force) _ h
        λ a. if-Clean p (a.0) _ _ (saved-Clean _ _) h

  pub set_title-Clean :
      (i t : Str) (rename : Bool) → Clean p (set_title (at_time p now) k i t rename w).0
  unfolding set_title
  set_title-Clean i t rename =
      resolved-Clean i _ λ d. if-Clean p (is_empty (trim_space t)) _ _ h (saved-Clean _ _)

  pub set_purpose-Clean : (i s : Str) → Clean p (set_purpose (at_time p now) k i s w).0
  unfolding set_purpose
  set_purpose-Clean i s =
      if-Clean p (not k.has_purpose) _ _ h
        (resolved-Clean i _ λ d. if-Clean p (is_empty (trim_space s)) _ _ h (saved-Clean _ _))

  pub set_type-Clean : (i t : Str) → Clean p (set_type (at_time p now) k i t w).0
  unfolding set_type
  set_type-Clean i t = resolved-Clean i _ λ d.
      option-Clean p (normalize_type p.letters (config_of (at_time p now) k) t) _ _ h
        λ v. saved-Clean _ _

  pub set_priority-Clean : (i : Str) (v : Scalar) → Clean p (set_priority (at_time p now) k i v w).0
  unfolding set_priority
  set_priority-Clean i v = resolved-Clean i _ λ d.
      option-Clean p (normalize_priority p.letters (config_of (at_time p now) k) v) _ _ h
        λ v. saved-Clean _ _

  pub set_effort-Clean : (i : Str) (v : Scalar) → Clean p (set_effort (at_time p now) k i v w).0
  unfolding set_effort
  set_effort-Clean i v = resolved-Clean i _ λ d.
      option-Clean p (normalize_effort p.letters (config_of (at_time p now) k) v) _ _ h
        λ v. saved-Clean _ _

  pub clear_effort-Clean : (i : Str) → Clean p (clear_effort (at_time p now) k i w).0
  unfolding clear_effort
  clear_effort-Clean i = resolved-Clean i _ λ d. saved-Clean _ _

  pub set_tags-Clean : (i : Str) (ts : List Str) → Clean p (set_tags (at_time p now) k i ts w).0
  unfolding set_tags
  set_tags-Clean i ts =
      resolved-Clean i _ λ d. behind-Clean p w (normalize_tags ts) _ h λ t. saved-Clean _ _

  pub add_tag-Clean : (i g : Str) → Clean p (add_tag (at_time p now) k i g w).0
  unfolding add_tag
  add_tag-Clean i g = resolved-Clean i _ λ d. if-Clean p (is_empty (trim_space g)) _ _ h (
      behind-Clean p w (normalize_tags (d.front_matter.tags ++ g ∷ [])) _ h
        λ t. if-Clean p (length t == length d.front_matter.tags) _ _ h (saved-Clean _ _))

  pub remove_tag-Clean : (i g : Str) → Clean p (remove_tag (at_time p now) k i g w).0
  unfolding remove_tag
  remove_tag-Clean i g = resolved-Clean i _ λ d.
      if-Clean p
        (length (keep (λ t. not (str_eq t (trim_space g))) d.front_matter.tags)
          == length d.front_matter.tags)
        _ _ h (saved-Clean _ _)

  pub set_milestone-Clean : (i m : Str) → Clean p (set_milestone (at_time p now) k i m w).0
  unfolding set_milestone
  set_milestone-Clean i m = resolved-Clean i _ λ d. saved-Clean _ _

  pub set_due_date-Clean : (i t : Str) → Clean p (set_due_date (at_time p now) k i t w).0
  unfolding set_due_date
  set_due_date-Clean i t =
      resolved-Clean i _
        λ d. behind-Clean p w (checked_date (at_time p now) t) _ h λ t. saved-Clean _ _

  pub set_planned_dates-Clean :
      (i a z : Str) → Clean p (set_planned_dates (at_time p now) k i a z w).0
  unfolding set_planned_dates
  set_planned_dates-Clean i a z = resolved-Clean i _ λ d.
      behind-Clean p w (checked_date (at_time p now) a) _ h λ b.
        behind-Clean p w (checked_date (at_time p now) z) _ h λ e.
          if-Clean p
            (not
              (has_planned_dates (record (d.front_matter) { planned_start = b; planned_end = e })))
            _ _ h (saved-Clean _ _)

  pub set_order-Clean : (i : Str) (n : ℤ) → Clean p (set_order (at_time p now) k i n w).0
  unfolding set_order
  set_order-Clean i n = resolved-Clean i _ λ d. saved-Clean _ _

  pub set_assignee-Clean : (i a : Str) → Clean p (set_assignee (at_time p now) k i a w).0
  unfolding set_assignee
  set_assignee-Clean i a =
      if-Clean p (not k.has_assignee) _ _ h
        (resolved-Clean i _ λ d. behind-Clean p w (normalize_assignee a) _ h λ t. saved-Clean _ _)

  pub set_criterion_state-Clean :
      (i : Str) (n : ℕ) (s : Str) → Clean p (set_criterion_state (at_time p now) k i n s w).0
  unfolding set_criterion_state
  set_criterion_state-Clean i n s = if-Clean p (not k.criteria_gate) _ _ h (
      resolved-Clean i _ λ d.
        option-Clean p (normalize_criterion_state (at_time p now) s) _ _ h
          λ st. result-Clean p (set_criterion p.folding d.content n st) _ _ h λ c. saved-Clean _ _)

  pub add_criterion_text-Clean :
      (i t g : Str) → Clean p (add_criterion_text (at_time p now) k i t g w).0
  unfolding add_criterion_text
  add_criterion_text-Clean i t g = if-Clean p (not k.criteria_gate) _ _ h (
      resolved-Clean i _ λ d.
        if-Clean p (is_empty (trim_space t)) _ _ h
          (option-Clean p (criterion_kind (at_time p now) g) _ _ h λ c. saved-Clean _ _))

  pub remove_criterion_at-Clean :
      (i : Str) (n : ℕ) → Clean p (remove_criterion_at (at_time p now) k i n w).0
  unfolding remove_criterion_at
  remove_criterion_at-Clean i n = if-Clean p (not k.criteria_gate) _ _ h (
      resolved-Clean i _
        λ d. result-Clean p (remove_criterion p.folding d.content n) _ _ h λ c. saved-Clean _ _)

  pub append_entry-Clean : (i s : Str) → Clean p (append_entry (at_time p now) k i s w).0
  unfolding append_entry
  append_entry-Clean i s = if-Clean p (not k.work_log) _ _ h (
      resolved-Clean i _ λ d.
        if-Clean p (is_empty (trim_space s) || any (λ c. c == newline) (trim_space s)) _ _ h
          (saved-Clean _ _))

  confirm-Clean :
      (a id : Str) (r : World Memory × Result Error Document)
      → Clean p r.0
      → Clean p (confirm (at_time p now) k (λ s. s) a id r).0
  unfolding confirm
  confirm-Clean a id (v, err e) g = g
  confirm-Clean a id (v, ok saved) g = if-Clean p (is_lost (at_time p now) k a id v.store) _ _ g g

  take_over-Clean :
      (locked : Bool) (a : Str) (force : Bool) (d : Document)
      → Clean p (take_over (at_time p now) k (alone locked) a force d w).0
  unfolding take_over
  take_over-Clean locked a force d =
      let held = d.front_matter.assignee in
      if-Clean p (str_eq held a && str_eq d.front_matter.status in_progress) _ _ h (
        if-Clean p (not (is_empty held) && not (str_eq held a) && not force) _ _ h (
          behind-Clean p w
            (apply_status (at_time p now) w.store k (assigned (at_time p now) k a d) in_progress
              force)
            _ h λ t. confirm-Clean a (id_of d) _ (saved-Clean _ _)))

  pub claim-Clean :
      (locked : Bool) (i a : Str) (force : Bool)
      → Clean p (claim (at_time p now) k (alone locked) i a force w).0
  unfolding claim
  claim-Clean locked i a force = if-Clean p (not k.has_assignee) _ _ h (
      behind-Clean p w (normalize_assignee a) _ h λ t. if-Clean p (is_empty t) _ _ h (
        resolved-Clean i _ λ first.
          if-Clean p (not locked) _ _ h
            (resolved-Clean (id_of first) _ λ d. take_over-Clean locked t force d)))
