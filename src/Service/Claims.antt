-- ===== src/Service/Claims.antt =====
-- What a claim of mind-palace/service/dependencies.go ensures.
use clued.Base.{
  ◌≡◌, refl, ap, sym, ◌∙◌, ◌⊎◌, Bool, true, false, not, ◌&&◌, ◌||◌, some, [], arith, Str, bytes,
  is_empty, str_eq, str_eq_iff, Bool-cases, Result-cases, Result, ok, err, inl, inr,
}
use clued.Model.{Document, id_of}
use clued.Config.{normalize_status}
use clued.Service.{Kind, Error, Palace, updated, World, config_of, in_progress}
use clued.Service.Resolving.{resolve, normalize_dates, normalize_timestamps}
use clued.Service.Saving.{normalized, stamped, save}
use clued.Service.Fields.{moved, apply_status, with_path}
use clued.Service.Claiming.{
  normalize_assignee, Around, assigned, is_lost, confirm, take_over, claim,
}
use clued.Service.Saved.{save-ok, written}
use clued.Service.Gates.{IsAllowed, apply_status-ok}

-- The last read of the document fails, or finds it with the assignee.
abbrev pub IsKept : {S : Type 0} → Palace S → Kind → Str → Str → S → Type 0
IsKept p k a id after =
    ((e : Error) × (resolve p k.name id after ≡ err e))
    ⊎ ((x : Document) × (resolve p k.name id after ≡ ok x) × (x.front_matter.assignee ≡ a))

-- What a claim read and did: the document, as it was read under the lock, was free, or the
-- assignee's, or taken by force; the one returned is the assignee's and in progress; it was in
-- progress when read, or was allowed to start; and where anything was written, the last read fails
-- or finds it with the assignee.
pub record IsTaken {S : Type 0} (p : Palace S) (k : Kind) (a : Str) (force : Bool) (d d' : Document)
    (before after : S) : Type 0 where
  pub free : (force || is_empty d.front_matter.assignee || str_eq d.front_matter.assignee a) ≡ true
  pub assignee : d'.front_matter.assignee ≡ a
  pub status : d'.front_matter.status ≡ in_progress
  pub allowed :
      (d.front_matter.status ≡ in_progress)
      ⊎ IsAllowed p before k (assigned p k a d) in_progress force
  pub kept : (d' ≡ d) ⊎ IsKept p k a (id_of d) after

is_lost-IsKept :
    {S : Type 0} (p : Palace S) (k : Kind) (a id : Str) (s : S)
    → is_lost p k a id s ≡ false
    → IsKept p k a id s
unfolding is_lost
is_lost-IsKept p k a id s h = elim (Result-cases (resolve p k.name id s)) [
  | inl (x, found) ↦ inr (x, found, ground (arith, found, str_eq_iff x.front_matter.assignee a))
  | inr (e, failed) ↦ inl (e, failed)
]

confirm-ok :
    {S : Type 0} (p : Palace S) (k : Kind) (meanwhile : S → S) (a id : Str)
    (r : World S × Result Error Document) (d : Document)
    → (confirm p k meanwhile a id r).1 ≡ ok d
    → (r.1 ≡ ok d) × (is_lost p k a id (confirm p k meanwhile a id r).0.store ≡ false)
unfolding confirm
confirm-ok p k meanwhile a id (w, err e) d h = cc
confirm-ok p k meanwhile a id (w, ok saved) d h = (ground arith, ground arith)

saved_assignee :
    {S : Type 0} (p : Palace S) (k : Kind) (m : Document)
    → (written p k updated (with_path p [] m)).front_matter.assignee ≡ m.front_matter.assignee
unfolding stamped normalized normalize_dates normalize_timestamps
saved_assignee p k m = refl

saved_status :
    {S : Type 0} (p : Palace S) (k : Kind) (m : Document)
    → (written p k updated (with_path p [] m)).front_matter.status ≡ m.front_matter.status
unfolding stamped normalized normalize_dates normalize_timestamps
saved_status p k m = refl

apply_status-assigned :
    {S : Type 0} (p : Palace S) (k : Kind) (s : S) (a : Str) (force changed : Bool) (d m : Document)
    → normalize_status p.letters (config_of p k) in_progress ≡ some in_progress
    → apply_status p s k (assigned p k a d) in_progress force ≡ ok (changed, m)
    → (m.front_matter.assignee ≡ a)
      × (m.front_matter.status ≡ in_progress)
      × ((d.front_matter.status ≡ in_progress)
          ⊎ IsAllowed p s k (assigned p k a d) in_progress force)
unfolding moved
apply_status-assigned p k s a force changed d m n h =
    elim (apply_status-ok p s k (assigned p k a d) m in_progress force changed h) [
      | inl (kept, same, name) ↦
          let status : d.front_matter.status ≡ in_progress = cc in
          (
            ap (λ (e : Document). e.front_matter.assignee) same,
            ap (λ (e : Document). e.front_matter.status) same ∙ status,
            inl status,
          )
      | inr (to, change, name, allowed, same) ↦
          let status : to ≡ in_progress = cc in
          (
            ap (λ (e : Document). e.front_matter.assignee) same,
            ap (λ (e : Document). e.front_matter.status) same ∙ status,
            inr (rw (sym status) allowed),
          )
    ]

take_over-IsTaken :
    {S : Type 0} (p : Palace S) (k : Kind) (around : Around S) (a : Str) (force : Bool)
    (d d' : Document) (w : World S)
    → normalize_status p.letters (config_of p k) in_progress ≡ some in_progress
    → (take_over p k around a force d w).1 ≡ ok d'
    → IsTaken p k a force d d' w.store (take_over p k around a force d w).0.store
unfolding take_over moved
take_over-IsTaken {S = S} p k around a force d d' w n h =
    let held = d.front_matter.assignee in
    elim (Bool-cases (str_eq held a && str_eq d.front_matter.status in_progress)) [
      | inl mine ↦
          let same : d' ≡ d = ground arith in
          let assignee : held ≡ a = ground (arith, str_eq_iff held a) in
          let status : d.front_matter.status ≡ in_progress =
            ground (arith, str_eq_iff d.front_matter.status in_progress) in
          record {
            free = ground arith;
            assignee = rw same assignee;
            status = rw same status;
            allowed = inl status;
            kept = inl same;
          }
      | inr other ↦ elim (Bool-cases (not (is_empty held) && not (str_eq held a) && not force)) [
        | inl taken ↦ absurd (ground arith)
        | inr free ↦
            elim (Result-cases (apply_status p w.store k (assigned p k a d) in_progress force)) [
              | inr (e, failed) ↦ absurd (ground (arith, failed))
              | inl ((changed, m), done) ↦
                  let w' : World S = record w { store = around.between w.store } in
                  let opened : take_over p k around a force d w
                      ≡ confirm p k around.meanwhile a (id_of d)
                          (save p k updated (bytes "claim") (with_path p [] m) w') =
                    rw (other, free, done, take_over) refl in
                  let final : (confirm p k around.meanwhile a (id_of d)
                        (save p k updated (bytes "claim") (with_path p [] m) w')).1
                      ≡ ok d' =
                    ap (λ r. r.1) (sym opened) ∙ h in
                  let (saved, won) =
                    confirm-ok p k around.meanwhile a (id_of d)
                      (save p k updated (bytes "claim") (with_path p [] m) w') d' final in
                  let (same, clean, stored, world) =
                    save-ok p k updated (bytes "claim") (with_path p [] m) d' w' saved in
                  let (assignee, status, allowed) =
                    apply_status-assigned p k w.store a force changed d m n done in
                  record {
                    free = ground arith;
                    assignee = rw same (saved_assignee p k m ∙ assignee);
                    status = rw same (saved_status p k m ∙ status);
                    allowed = allowed;
                    kept = inr (is_lost-IsKept p k a (id_of d) _ (rw opened won));
                  }
            ]
      ]
    ]

-- Where `Claim` returns a document without an error, the document it read under the lock was free,
-- or the assignee's already, or was taken by force; the returned document is the assignee's and in
-- progress; the one read was in progress already, or the gates of a status change allowed it to
-- start, in the store as it was read; and where anything was written, the last read of the document
-- fails or finds it with the assignee. Others may change the store in any way while `Claim` waits,
-- between its read and its write, and before its last read: what they write between the read and
-- the write is not tested. in_progress is a status of the settings.
pub claim-IsTaken :
    {S : Type 0} (p : Palace S) (k : Kind) (around : Around S) (identifier assignee a : Str)
    (force : Bool) (first d d' : Document) (w : World S)
    → normalize_status p.letters (config_of p k) in_progress ≡ some in_progress
    → normalize_assignee assignee ≡ ok a
    → resolve p k.name identifier w.store ≡ ok first
    → resolve p k.name (id_of first) (around.waiting w.store) ≡ ok d
    → (claim p k around identifier assignee force w).1 ≡ ok d'
    → IsTaken p k a force d d'
        (around.waiting w.store)
        (claim p k around identifier assignee force w).0.store
unfolding claim
claim-IsTaken p k around identifier assignee a force first d d' w n given found read h =
    elim (Bool-cases (not k.has_assignee || is_empty a || not around.locked)) [
      | inl shut ↦ absurd (ground (arith, given, found))
      | inr passed ↦
          let w' = record w { store = around.waiting w.store } in
          let some_assignee : not k.has_assignee ≡ false = ground arith in
          let not_empty : is_empty a ≡ false = ground arith in
          let locked : not around.locked ≡ false = ground arith in
          let opened : claim p k around identifier assignee force w
              ≡ take_over p k around a force d w' =
            rw (some_assignee, given, not_empty, found, locked, read, claim) refl in
          rw opened
            (take_over-IsTaken p k around a force d d' w' n (ap (λ r. r.1) (sym opened) ∙ h))
    ]
