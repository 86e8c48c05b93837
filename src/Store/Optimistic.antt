-- ===== src/Store/Optimistic.antt =====
-- `PutIf` of mind-palace/store/store.go, on one store.
use clued.Base.{
  ◌≡◌, subst, arith, Str, str_eq, str_eq_iff, Bool-cases, Option-cases, Result-cases, inl, inr, ok,
  err,
}
use clued.Model.{Document, id_of, updated_of}
use clued.Store.Plugin.{Failure, Plugin, put_if, IsConditional, Conditional, IsLawful}

module _ {S : Type 0} (plugin : Plugin S) (lawful : IsLawful plugin) where
  -- A `PutIf` that succeeds found the version it expected, and the store holds the document.
  pub put_if-written :
      (d : Document) (prev : Str) (s : S)
      → (put_if plugin d prev s).1 ≡ ok tt
      → ((cur : Document) × (plugin.get d.kind (id_of d) s ≡ ok cur) × (updated_of cur ≡ prev))
        × (plugin.get d.kind (id_of d) (put_if plugin d prev s).0 ≡ ok d)
  unfolding put_if
  put_if-written d prev s h = elim (Option-cases plugin.put_if) [
    | inr (c, has) ↦
        let laws : IsConditional plugin c = subst (Conditional plugin) has lawful.conditional in
        rw (has) (laws.written d prev s (ground arith))
    | inl none_there ↦ elim (Result-cases (plugin.get d.kind (id_of d) s)) [
      | inr (e, missed) ↦ absurd (ground arith)
      | inl (cur, got) ↦ elim (Bool-cases (str_eq (updated_of cur) prev)) [
        | inl same ↦ (
          (cur, got, ground (arith, str_eq_iff (updated_of cur) prev)),
          ground (arith, lawful.get-put d s),
        )
        | inr differs ↦ absurd (ground arith)
      ]
    ]
  ]

  -- A `PutIf` that fails changes nothing.
  pub put_if-refused :
      (d : Document) (prev : Str) (s : S) (f : Failure)
      → (put_if plugin d prev s).1 ≡ err f
      → (put_if plugin d prev s).0 ≡ s
  unfolding put_if
  put_if-refused d prev s f h = elim (Option-cases plugin.put_if) [
    | inr (c, has) ↦
        let laws : IsConditional plugin c = subst (Conditional plugin) has lawful.conditional in
        ground (arith, laws.refused d prev s f)
    | inl none_there ↦ ground (arith, lawful.put-err d s f)
  ]
