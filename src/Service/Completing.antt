-- ===== src/Service/Completing.antt =====
-- How `SetProgress` of mind-palace/service/progress.go completes a document.
use clued.Base.{
  ◌≡◌, refl, ap, sym, ◌∙◌, ◌⊎◌, true, not, ◌&&◌, ◌||◌, some, List, [], ◌∷◌, arith, Str, bytes,
  str_eq, str_eq_iff, lookup, Bool-cases, Result-cases, ok, inl, inr,
}
use clued.Model.{Document}
use clued.Config.{normalize_status}
use clued.Markdown.Criteria.{criteria}
use clued.Service.{Kind, Dependency, Palace, updated, World, config_of, in_progress, complete}
use clued.Service.Resolving.{resolve, normalize_dates, normalize_timestamps}
use clued.Service.Saving.{normalized, stamped, save}
use clued.Service.Dependencies.{open_dependencies}
use clued.Service.Fields.{criteria_gate}
use clued.Service.Progressing.{
  require_section, entry_or, with_entry, all_steps_complete, may_complete, complete_itself,
  set_progress,
}
use clued.Service.Saved.{save-ok, written}
use clued.Service.Gates.{all_closed, is_free, gate_of-ok}

saved_status :
    {S : Type 0} (p : Palace S) (k : Kind) (m : Document)
    → (written p k updated m).front_matter.status ≡ m.front_matter.status
unfolding stamped normalized normalize_dates normalize_timestamps
saved_status p k m = refl

-- What `save` returns keeps the status.
save-status :
    {S : Type 0} (p : Palace S) (k : Kind) (op : Str) (m d' : Document) (w : World S)
    → (save p k updated op m w).1 ≡ ok d'
    → d'.front_matter.status ≡ m.front_matter.status
save-status p k op m d' w h =
    ap (λ (e : Document). e.front_matter.status) (save-ok p k updated op m d' w h).0
    ∙ saved_status p k m

-- When a document may complete itself: it is in progress with every step complete, its criteria
-- are closed where the kind asks for it, and nothing holds it up.
pub record IsDone {S : Type 0} (p : Palace S) (s : S) (k : Kind) (m : Document) : Type 0 where
  pub status : m.front_matter.status ≡ in_progress
  pub steps : all_steps_complete m ≡ true
  pub closed : (not k.criteria_gate || all_closed (criteria p.folding m.content)) ≡ true
  pub free : is_free (open_dependencies p s k m true) ≡ true

may_complete-cases :
    {S : Type 0} (p : Palace S) (k : Kind) (m : Document) (found : List Dependency)
    → may_complete found (criteria_gate p k m) ≡ true
    → (found ≡ []) × ((not k.criteria_gate || all_closed (criteria p.folding m.content)) ≡ true)
unfolding criteria_gate
may_complete-cases p k m [] h = elim (Result-cases (criteria_gate p k m)) [
  | inl (u, passed) ↦ (refl, ground (arith, passed, gate_of-ok (criteria p.folding m.content) tt))
  | inr (e, failed) ↦ absurd (ground (arith, failed))
]
may_complete-cases p k m (dep ∷ more) h = cc

complete_itself-status :
    {S : Type 0} (p : Palace S) (k : Kind) (m d' : Document) (w : World S)
    → m.front_matter.status ≡ in_progress
    → all_steps_complete m ≡ true
    → (complete_itself p k m w).1 ≡ ok d'
    → (d'.front_matter.status ≡ m.front_matter.status) ⊎ IsDone p w.store k m
unfolding complete_itself
complete_itself-status p k m d' w status steps h =
    elim (Result-cases (open_dependencies p w.store k m true)) [
      | inr (e, failed) ↦ absurd (ground (arith, failed))
      | inl (found, searched) ↦ elim (Bool-cases (may_complete found (criteria_gate p k m))) [
        | inl done ↦
            let (none_found, closed) = may_complete-cases p k m found done in
            inr (record {
              status = status;
              steps = steps;
              closed = closed;
              free = rw (searched, none_found) refl;
            })
        | inr shut ↦
            let opened : complete_itself p k m w ≡ save p k updated (bytes "setProgress") m w =
              rw (searched, shut, complete_itself) refl in
            inl (save-status p k (bytes "setProgress") m d' w (ap (λ r. r.1) (sym opened) ∙ h))
      ]
    ]

-- Where `SetProgress` returns a document without an error and with another status than it had, the
-- document was in progress, every step of it is complete with the entry that was set, its criteria
-- are closed where the kind asks for it, and nothing that it depends on or that blocks it is open.
pub set_progress-IsDone :
    {S : Type 0} (p : Palace S) (k : Kind) (identifier given section status st : Str)
    (d d' : Document) (w : World S)
    → resolve p k.name identifier w.store ≡ ok d
    → require_section k d given ≡ ok section
    → normalize_status p.letters (config_of p k) status ≡ some st
    → (set_progress p k identifier given status w).1 ≡ ok d'
    → (d'.front_matter.status ≡ d.front_matter.status)
      ⊎ IsDone p w.store k (
          with_entry section
            (record (entry_or [] (lookup section d.front_matter.progress)) { status = st })
            d)
unfolding set_progress
set_progress-IsDone p k identifier given section status st d d' w r q n h =
    let m =
      with_entry section
        (record (entry_or [] (lookup section d.front_matter.progress)) { status = st }) d in
    elim (Bool-cases (
      k.auto_complete
      && str_eq st complete
      && str_eq d.front_matter.status in_progress
      && all_steps_complete m)) [
        | inl all ↦
            let opened : set_progress p k identifier given status w ≡ complete_itself p k m w =
              rw (r, q, n, all, set_progress) refl in
            complete_itself-status p k m d' w
              (ground (arith, str_eq_iff d.front_matter.status in_progress)) (ground arith)
              (ap (λ a. a.1) (sym opened) ∙ h)
        | inr some_not ↦
            let opened : set_progress p k identifier given status w
                ≡ save p k updated (bytes "setProgress") m w =
              rw (r, q, n, some_not, set_progress) refl in
            inl (save-status p k (bytes "setProgress") m d' w (ap (λ a. a.1) (sym opened) ∙ h))
      ]
