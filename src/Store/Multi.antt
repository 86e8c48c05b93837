-- ===== src/Store/Multi.antt =====
-- `MultiStore` of mind-palace/store/store.go: writes go to every store, reads come from the first.
use clued.Base.{List, [], ◌∷◌, Str, insert, Result, ok, err}
use clued.Model.{Document}
use clued.Store.Plugin.{Failure, not_found, precondition, failed, Write, Plugin, put_if}

-- The error of a write: the primary store's `ErrNotFound`, another error of the primary store, or a
-- `FanoutError` with the stores that failed, by name.
pub data FanError : Type 0 where
  missing : FanError
  on_primary : Failure → FanError
  partial : List (Str × Failure) → FanError

abbrev pub Members : Type 0 → Type 0
Members S = List (Str × S)

abbrev pub fan_result : List (Str × Failure) → Result FanError (Unit {0})
fan_result [] = ok tt
fan_result (f ∷ fs) = err (partial (f ∷ fs))

-- What a copy's answer adds to the failures.
unfoldable pub note_failure :
    Str → Result Failure (Unit {0}) → List (Str × Failure) → List (Str × Failure)
note_failure name (ok _) fs = fs
note_failure name (err not_found) fs = fs
note_failure name (err precondition) fs = insert name precondition fs
note_failure name (err failed) fs = insert name failed fs

module _ {S : Type 0} where
  -- The loop of `fanout` behind the primary store.
  unfoldable pub fan_copies :
      Write S → List (Str × Failure) → Members S → Members S × List (Str × Failure)
  unfolding note_failure
  fan_copies op fs [] = ([], fs)
  fan_copies op fs ((name, s) ∷ copies) =
      let (s', result) = op s in
      let (copies', fs') = fan_copies op (note_failure name result fs) copies in
      ((name, s') ∷ copies', fs')

  -- `fanout`, with the write to the primary store and the write to the others.
  unfoldable pub fanout : Write S → Write S → Members S → Members S × Result FanError (Unit {0})
  unfolding fan_copies
  fanout first op [] = ([], ok tt)
  fanout first op ((name, s) ∷ copies) =
      let (s', result) = first s in
      elim result [
        | err not_found ↦ ((name, s') ∷ copies, err missing)
        | err precondition ↦ ((name, s') ∷ copies, err (on_primary precondition))
        | err failed ↦ ((name, s') ∷ copies, err (on_primary failed))
        | ok _ ↦
            let (copies', fs) = fan_copies op [] copies in ((name, s') ∷ copies', fan_result fs)
      ]

  module _ (plugin : Plugin S) where
    unfoldable pub put_all : Document → Members S → Members S × Result FanError (Unit {0})
    unfolding fanout
    put_all d = fanout (plugin.put d) (plugin.put d)

    unfoldable pub put_all_if : Document → Str → Members S → Members S × Result FanError (Unit {0})
    unfolding fanout
    put_all_if d prev = fanout (put_if plugin d prev) (plugin.put d)

    unfoldable pub delete_all : Str → Str → Members S → Members S × Result FanError (Unit {0})
    unfolding fanout
    delete_all kind id = fanout (plugin.delete kind id) (plugin.delete kind id)
