-- ===== src/Store/MemoryLaws.antt =====
-- The memory plugin, mind-palace/store/memstore/memstore.go, keeps what mind-palace/store/store.go
-- asks of a plugin.
use clued.Base.{
  refl, none, false, ◌&&◌, str_eq, ◌≡◌, some, List, [], ◌∷◌, arith, Str, str_eq_iff, str_eq_refl,
  Option-cases, inl, inr, ok,
}
use clued.Model.{Document, id_of, updated_of}
use clued.Store.Plugin.{has_key, IsLawful, IsPutIf, IsStore}
use clued.Store.Memory.{Memory, find_doc, set_doc, delete_doc, get, put, put_if, delete, memory}

find-set_doc :
    (d : Document) (docs : List Document) → find_doc d.kind (id_of d) (set_doc d docs) ≡ some d
unfolding find_doc set_doc
find-set_doc d [] = ground (arith, str_eq_refl d.kind, str_eq_refl (id_of d))
find-set_doc d (e ∷ docs) =
    ground (arith, str_eq_refl d.kind, str_eq_refl (id_of d), find-set_doc d docs)

find_doc-set_doc :
    (d : Document) (kind id : Str) (docs : List Document)
    → has_key kind id d ≡ false
    → find_doc kind id (set_doc d docs) ≡ find_doc kind id docs
unfolding find_doc set_doc
find_doc-set_doc d kind id [] h = ground arith
find_doc-set_doc d kind id (e ∷ docs) h = ground (
  arith,
  find_doc-set_doc d kind id docs h,
  str_eq_iff d.kind kind,
  str_eq_iff (id_of d) id,
  str_eq_iff e.kind kind,
  str_eq_iff (id_of e) id,
  str_eq_iff e.kind d.kind,
  str_eq_iff (id_of e) (id_of d),
)

find_doc-delete_doc :
    (kind id : Str) (docs : List Document) → find_doc kind id (delete_doc kind id docs) ≡ none
unfolding find_doc delete_doc
find_doc-delete_doc kind id [] = refl
find_doc-delete_doc kind id (e ∷ docs) = ground (arith, find_doc-delete_doc kind id docs)

find_doc-delete_doc_others :
    (kind id kind' id' : Str) (docs : List Document)
    → (str_eq kind kind' && str_eq id id') ≡ false
    → find_doc kind' id' (delete_doc kind id docs) ≡ find_doc kind' id' docs
unfolding find_doc delete_doc
find_doc-delete_doc_others kind id kind' id' [] h = refl
find_doc-delete_doc_others kind id kind' id' (e ∷ docs) h = ground (
  arith,
  find_doc-delete_doc_others kind id kind' id' docs h,
  str_eq_iff kind kind',
  str_eq_iff id id',
  str_eq_iff e.kind kind,
  str_eq_iff (id_of e) id,
  str_eq_iff e.kind kind',
  str_eq_iff (id_of e) id',
)

module _ (lower : Str → Str) where
  get-put :
      (d : Document) (s : Memory)
      → (put lower d s).1 ≡ ok tt
      → get lower d.kind (id_of d) (put lower d s).0 ≡ ok d
  unfolding get put
  get-put d s h = ground (arith, find-set_doc d s.docs)

  get-put_if :
      (d : Document) (prev : Str) (s : Memory)
      → (put_if lower d prev s).1 ≡ ok tt
      → ((cur : Document) × (get lower d.kind (id_of d) s ≡ ok cur) × (updated_of cur ≡ prev))
        × (get lower d.kind (id_of d) (put_if lower d prev s).0 ≡ ok d)
  unfolding get put_if
  get-put_if d prev s h = elim (Option-cases (find_doc d.kind (id_of d) s.docs)) [
    | inl missing ↦ absurd (ground arith)
    | inr (cur, found) ↦ (
      (cur, ground arith, ground (arith, str_eq_iff (updated_of cur) prev)),
      ground (arith, find-set_doc d s.docs),
    )
  ]

  pub memory-IsLawful : IsLawful (memory lower)
  unfolding put put_if
  memory-IsLawful = record {
    get-put = get-put;
    put-err = λ d s f h. ground arith;
    put-creates = λ d s. ground arith;
    conditional = record {
      written = get-put_if;
      refused = λ d prev s f h. elim (Option-cases (find_doc d.kind (id_of d) s.docs)) [
        | inl missing ↦ ground arith
        | inr (cur, found) ↦ ground arith
      ];
    };
  }

  put_if-IsPutIf : IsPutIf (memory lower) (put_if lower)
  unfolding get put put_if
  put_if-IsPutIf = record {
    fresh = λ d cur prev s g u. elim (Option-cases (find_doc d.kind (id_of d) s.docs)) [
      | inl missing ↦ absurd (ground arith)
      | inr (e, found) ↦ ground (arith, str_eq_iff (updated_of e) prev)
    ];
    stale = λ d prev s old p. elim (Option-cases (find_doc d.kind (id_of d) s.docs)) [
      | inl missing ↦ ground (arith, old)
      | inr (e, found) ↦ ground (arith, old)
    ];
    broken = λ d prev s f old p. elim (Option-cases (find_doc d.kind (id_of d) s.docs)) [
      | inl missing ↦ ground (arith, old)
      | inr (e, found) ↦ ground (arith, old)
    ];
  }

  -- The memory plugin keeps the contract of Get, Put, Delete and PutIf. What Put and PutIf wrote is
  -- what Get returns, and no write changes a document of another kind or id. PutIf on the expected
  -- version is Put. On another version, or on no document, it changes nothing and is
  -- ErrPrecondition, unless Put of the document fails too, with whose error it fails then. Delete
  -- removes the document, does not succeed where there is none, and a Put, a PutIf or a Delete that
  -- fails changes nothing.
  pub memory-IsStore : IsStore (memory lower) (put_if lower)
  unfolding get put put_if delete
  memory-IsStore = record {
    lawful = memory-IsLawful;
    is_put_if = refl;
    put_if_laws = put_if-IsPutIf;
    put_others = λ d kind id s h. ground (arith, find_doc-set_doc d kind id s.docs h);
    put_if_others = λ d prev kind id s h. elim (Option-cases (find_doc d.kind (id_of d) s.docs)) [
      | inl missing ↦ ground arith
      | inr (e, found) ↦ ground (arith, find_doc-set_doc d kind id s.docs h)
    ];
    deleted = λ kind id s h. elim (Option-cases (find_doc kind id s.docs)) [
      | inl missing ↦ absurd (ground arith)
      | inr (e, found) ↦ ground (arith, find_doc-delete_doc kind id s.docs)
    ];
    delete_missing = λ kind id s g h. elim (Option-cases (find_doc kind id s.docs)) [
      | inl missing ↦ ground arith
      | inr (e, found) ↦ ground arith
    ];
    delete_others = λ kind id kind' id' s h. elim (Option-cases (find_doc kind id s.docs)) [
      | inl missing ↦ ground arith
      | inr (e, found) ↦ ground (arith, find_doc-delete_doc_others kind id kind' id' s.docs h)
    ];
    delete-err = λ kind id s f h. elim (Option-cases (find_doc kind id s.docs)) [
      | inl missing ↦ ground arith
      | inr (e, found) ↦ ground arith
    ];
  }
