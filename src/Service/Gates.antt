-- ===== src/Service/Gates.antt =====
-- The workflow that `SetStatus` of mind-palace/service/fields.go enforces.
use clued.Base.{
  ◌≡◌, refl, ap, ◌∙◌, ◌⊎◌, Bool, true, false, not, ◌||◌, Option, none, some, List, [], ◌∷◌, arith,
  Str, bytes, str_eq, str_eq_iff, any, Bool-cases, Option-cases, Result-cases, Result, ok, err, inl,
  inr,
}
use clued.Model.{Document}
use clued.Config.{has_status, can_transition, normalize_status}
use clued.Markdown.Criteria.{Criterion, criteria, state_open}
use clued.Service.{
  Kind, Dependency, Error, Palace, updated, World, config_of, in_progress, complete,
}
use clued.Service.Resolving.{resolve, normalize_dates, normalize_timestamps}
use clued.Service.Saving.{normalized, stamped, save}
use clued.Service.Dependencies.{open_dependencies, dependency_gate}
use clued.Service.Fields.{
  gate_of, criteria_gate, moved, status_gates, apply_status, with_path, set_status,
}
use clued.Service.Saved.{save-ok, check-nil, written}

-- Whether there are criteria and none is open.
abbrev pub all_closed : Option (List Criterion) → Bool
all_closed none = false
all_closed (some []) = false
all_closed (some (c ∷ items)) = not (any (λ (i : Criterion). str_eq i.state state_open) (c ∷ items))

-- Whether the search for dependencies finished and found none.
abbrev pub is_free : Result Error (List Dependency) → Bool
is_free (ok []) = true
is_free (ok (dep ∷ more)) = false
is_free (err e) = false

abbrev pub starts_or_completes : Str → Bool
starts_or_completes to = str_eq to in_progress || str_eq to complete

-- Whether a document may move to a status: along an edge of the workflow unless forced; to
-- complete only with all criteria closed, forced or not, where the kind has the gate; to
-- in_progress or complete only without open dependencies unless forced.
pub record IsAllowed {S : Type 0} (p : Palace S) (s : S) (k : Kind) (d : Document) (to : Str)
    (force : Bool) : Type 0 where
  pub edge : (force || can_transition (config_of p k) d.front_matter.status to) ≡ true
  pub closed :
      (not (str_eq to complete) || not k.criteria_gate || all_closed (criteria p.folding d.content))
      ≡ true
  pub free :
      (force
        || not (starts_or_completes to)
        || is_free (open_dependencies p s k d (str_eq to complete)))
      ≡ true

pub gate_of-ok :
    (items : Option (List Criterion)) (u : Unit {0})
    → gate_of items ≡ ok u
    → all_closed items ≡ true
unfolding gate_of
gate_of-ok none u h = cc
gate_of-ok (some []) u h = cc
gate_of-ok (some (c ∷ items)) u h = ground arith

dependency_gate-ok :
    {S : Type 0} (p : Palace S) (s : S) (k : Kind) (d : Document) (completing : Bool) (u : Unit {0})
    → dependency_gate p s k d completing ≡ ok u
    → is_free (open_dependencies p s k d completing) ≡ true
unfolding dependency_gate
dependency_gate-ok p s k d completing u h =
    elim (Result-cases (open_dependencies p s k d completing)) [
      | inl ([], e) ↦ rw e refl
      | inl (dep ∷ more, e) ↦ absurd (ground (arith, e))
      | inr (e, failed) ↦ absurd (ground (arith, failed))
    ]

status_gates-ok :
    {S : Type 0} (p : Palace S) (s : S) (k : Kind) (d : Document) (to : Str) (force : Bool)
    (u : Unit {0})
    → status_gates p s k d to force ≡ ok u
    → IsAllowed p s k d to force
unfolding status_gates criteria_gate
status_gates-ok p s k d to force u h = record {
  edge = ground arith;
  closed = ground (arith, gate_of-ok (criteria p.folding d.content) tt);
  free = ground (arith, dependency_gate-ok p s k d (str_eq to complete) tt);
}

pub apply_status-ok :
    {S : Type 0} (p : Palace S) (s : S) (k : Kind) (d d' : Document) (given : Str)
    (force changed : Bool)
    → apply_status p s k d given force ≡ ok (changed, d')
    → ((changed ≡ false)
        × (d' ≡ d)
        × (normalize_status p.letters (config_of p k) given ≡ some d.front_matter.status))
      ⊎ ((to : Str) × (changed ≡ true)
          × (normalize_status p.letters (config_of p k) given ≡ some to)
          × IsAllowed p s k d to force
          × (d' ≡ moved p k d to))
unfolding apply_status
apply_status-ok p s k d d' given force changed h =
    elim (Option-cases (normalize_status p.letters (config_of p k) given)) [
      | inl bad ↦ absurd (ground (arith, bad))
      | inr (to, good) ↦ elim (Bool-cases (str_eq to d.front_matter.status)) [
        | inl here ↦
            let same = str_eq_iff to d.front_matter.status in
            inl (ground (arith, good), ground (arith, good), ground (arith, good, same))
        | inr there ↦ elim (Result-cases (status_gates p s k d to force)) [
          | inl (u, passed) ↦ inr (
            to,
            ground (arith, good, passed),
            good,
            status_gates-ok p s k d to force u passed,
            ground (arith, good, passed),
          )
          | inr (e, shut) ↦ absurd (ground (arith, good, shut))
        ]
      ]
    ]

-- Where `SetStatus` returns a document without an error, its status is what `NormalizeStatus` reads
-- from the one given, and either the document is the one that was there and nothing was written,
-- or the move is allowed and leads to a configured status.
pub set_status-IsAllowed :
    {S : Type 0} (p : Palace S) (k : Kind) (identifier given : Str) (force : Bool) (d d' : Document)
    (w : World S)
    → resolve p k.name identifier w.store ≡ ok d
    → (set_status p k identifier given force w).1 ≡ ok d'
    → (normalize_status p.letters (config_of p k) given ≡ some d'.front_matter.status)
      × (((d' ≡ d) × ((set_status p k identifier given force w).0 ≡ w))
          ⊎ (IsAllowed p w.store k d d'.front_matter.status force
              × (has_status (config_of p k) d'.front_matter.status ≡ true)))
unfolding stamped normalized normalize_dates normalize_timestamps moved set_status
set_status-IsAllowed p k identifier given force d d' w r h =
    elim (Result-cases (apply_status p w.store k d given force)) [
      | inr (e, failed) ↦ absurd (ground (arith, r, failed))
      | inl ((changed, m), done) ↦ elim (apply_status-ok p w.store k d m given force changed done) [
        | inl (kept, same, name) ↦
            let plain : apply_status p w.store k d given force ≡ ok (false, d) = cc in
            let opened : set_status p k identifier given force w ≡ (w, ok d) =
              rw (r, plain, set_status) refl in
            let same' : d' ≡ d = ground (arith, opened) in
            (rw same' name, inl (same', ap (λ a. a.0) opened))
        | inr (to, change, name, allowed, same) ↦
            let x = with_path p [] m in
            let plain : apply_status p w.store k d given force ≡ ok (true, m) = cc in
            let opened : set_status p k identifier given force w
                ≡ save p k updated (bytes "setStatus") x w =
              rw (r, plain, set_status) refl in
            let saved : (save p k updated (bytes "setStatus") x w).1 ≡ ok d' = cc in
            let (written, clean, stored, world) =
              save-ok p k updated (bytes "setStatus") x d' w saved in
            let consistent = check-nil p k d' clean in
            let status : d'.front_matter.status ≡ to =
              ap (λ (e : Document). e.front_matter.status) written
              ∙ ap (λ (e : Document). e.front_matter.status) same in
            (rw status name, inr (rw status allowed, consistent.known))
      ]
    ]
