-- ===== src/Service/Claiming.antt =====
-- `Claim` of mind-palace/service/dependencies.go. Other processes may act while `Claim` waits for
-- the lock, between its read under the lock and its write, and before it reads the document again.
use clued.Base.{
  Bool, false, not, ◌&&◌, [], Str, bytes, is_empty, str_eq, trim_space, contains_white,
  if◌then◌else◌, Result, ok, err,
}
use clued.Model.{Document, id_of}
use clued.Service.{Kind, Error, bad_request, conflict, Palace, updated, World, in_progress, behind}
use clued.Service.Resolving.{resolve}
use clued.Service.Saving.{save}
use clued.Service.Fields.{apply_status, with_path}

-- `normalizeAssignee` of mind-palace/service/schedule.go.
unfoldable pub normalize_assignee : Str → Result Error Str
normalize_assignee given =
    let a = trim_space given in if contains_white a then err bad_request else ok a

-- What happens around a claim: what others do while it waits for the lock, whether it gets the
-- lock, what others do between its read under the lock and its write (`SetAssignee` takes no lock,
-- and no claim does where the store cannot lock), and between its write and its last read.
pub record Around (S : Type 0) : Type 0 where
  pub waiting : S → S
  pub locked : Bool
  pub between : S → S
  pub meanwhile : S → S

module _ {S : Type 0} (p : Palace S) (k : Kind) where
  abbrev pub assigned : Str → Document → Document
  assigned a d = record d { front_matter = record (d.front_matter) { assignee = a } }

  -- The last read: whether it finds the document with somebody else. A read that fails does not.
  unfoldable pub is_lost : Str → Str → S → Bool
  is_lost a id s = elim (resolve p k.name id s) [
    | err e ↦ false
    | ok after ↦ not (str_eq after.front_matter.assignee a)
  ]

  -- Behind the write.
  unfoldable pub confirm :
      (S → S) → Str → Str → World S × Result Error Document → World S × Result Error Document
  confirm meanwhile a id (w, err e) = (w, err e)
  confirm meanwhile a id (w, ok saved) =
      let w' = record w { store = meanwhile w.store } in
      if is_lost a id w'.store then (w', err conflict) else (w', ok saved)

  -- Under the lock, on the document as it is read there. The tests are on what was read; the write
  -- is into what the store is by then.
  unfoldable pub take_over :
      Around S → Str → Bool → Document → World S → World S × Result Error Document
  take_over around a force d w =
      let held = d.front_matter.assignee in
      if str_eq held a && str_eq d.front_matter.status in_progress
      then (w, ok d)
      else if not (is_empty held) && not (str_eq held a) && not force
      then (w, err conflict)
      else behind w (apply_status p w.store k (assigned a d) in_progress force) λ answer.
        let w' : World S = record w { store = around.between w.store } in
        confirm around.meanwhile a (id_of d)
          (save p k updated (bytes "claim") (with_path p [] (answer.1)) w')

  unfoldable pub claim : Around S → Str → Str → Bool → World S → World S × Result Error Document
  claim around identifier assignee force w =
      if not k.has_assignee
      then (w, err bad_request)
      else behind w (normalize_assignee assignee) λ a.
        if is_empty a
        then (w, err bad_request)
        else behind w (resolve p k.name identifier w.store) λ first.
          let w' = record w { store = around.waiting w.store } in
          if not around.locked
          then (w', err conflict)
          else behind w' (resolve p k.name (id_of first) w'.store)
              λ d. take_over around a force d w'
