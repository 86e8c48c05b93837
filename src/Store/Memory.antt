-- ===== src/Store/Memory.antt =====
-- The memory plugin, mind-palace/store/memstore/memstore.go: its documents.
use clued.Base.{
  Bool, not, Option, none, some, List, [], ◌∷◌, Str, str_eq, str_lt, keep, if◌then◌else◌, Result,
  ok, err,
}
use clued.Model.{Document, id_of, updated_of, is_kind}
use clued.Store.Plugin.{Failure, not_found, precondition, failed, Write, Plugin, has_key}

-- The map `docs`, by kind and id; `fail_writes` is whether FailWrites is set.
pub record Memory : Type 0 where
  pub docs : List Document
  pub fail_writes : Bool

unfoldable pub find_doc : Str → Str → List Document → Option Document
find_doc kind id [] = none
find_doc kind id (d ∷ docs) = if has_key kind id d then some d else find_doc kind id docs

-- The assignment `docs[key] = d`.
unfoldable pub set_doc : Document → List Document → List Document
set_doc d [] = d ∷ []
set_doc d (e ∷ docs) = if has_key d.kind (id_of d) e then d ∷ docs else e ∷ set_doc d docs

-- The builtin `delete(docs, key)`.
unfoldable pub delete_doc : Str → Str → List Document → List Document
delete_doc kind id [] = []
delete_doc kind id (e ∷ docs) =
    let rest = delete_doc kind id docs in if has_key kind id e then rest else e ∷ rest

module _ (lower : Str → Str) where
  unfoldable pub get : Str → Str → Memory → Result Failure Document
  unfolding find_doc
  get kind id s = elim (find_doc kind id s.docs) [ none ↦ err not_found | some d ↦ ok d ]

  unfoldable pub put : Document → Write Memory
  unfolding is_kind set_doc
  put d s =
      if s.fail_writes
      then (s, err failed)
      else if not (is_kind lower d.kind)
      then (s, err failed)
      else (record s { docs = set_doc d s.docs }, ok tt)

  unfoldable pub put_if : Document → Str → Write Memory
  unfolding is_kind find_doc set_doc
  put_if d prev s =
      if s.fail_writes
      then (s, err failed)
      else if not (is_kind lower d.kind)
      then (s, err failed)
      else elim (find_doc d.kind (id_of d) s.docs) [
        | none ↦ (s, err precondition)
        | some cur ↦
            if not (str_eq (updated_of cur) prev)
            then (s, err precondition)
            else (record s { docs = set_doc d s.docs }, ok tt)
      ]

  unfoldable pub delete : Str → Str → Write Memory
  unfolding find_doc delete_doc
  delete kind id s = if s.fail_writes then (s, err failed) else elim (find_doc kind id s.docs) [
    | none ↦ (s, err not_found)
    | some d ↦ (record s { docs = delete_doc kind id s.docs }, ok tt)
  ]

  abbrev pub memory : Plugin Memory
  memory = record { get = get; put = put; delete = delete; put_if = some put_if }

-- `sort.Slice` by id.
unfoldable pub insert_doc : Document → List Document → List Document
insert_doc d [] = d ∷ []
insert_doc d (e ∷ docs) = if str_lt (id_of d) (id_of e) then d ∷ e ∷ docs else e ∷ insert_doc d docs

unfoldable pub sort_docs : List Document → List Document
unfolding insert_doc
sort_docs [] = []
sort_docs (d ∷ docs) = insert_doc d (sort_docs docs)

-- `List`
unfoldable pub list : (Str → Str) → Str → Memory → Result Failure (List Document)
unfolding is_kind sort_docs
list lower kind s =
    if not (is_kind lower kind)
    then err failed
    else ok (sort_docs (keep (λ (d : Document). str_eq d.kind kind) s.docs))
