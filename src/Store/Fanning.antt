-- ===== src/Store/Fanning.antt =====
-- Writes of `MultiStore` of mind-palace/store/store.go over all its stores.
use clued.Base.{
  ◌≡◌, ◌≢◌, refl, sym, subst, some, List, [], ◌∷◌, arith, Str, lookup, insert, lookup-insert,
  lookup-insert_self, Option-cases, Result-cases, All, inl, inr, ◌⊎◌, Result, ok, err,
}
use clued.Model.{Document, id_of, updated_of}
use clued.Store.Plugin.{Failure, not_found, precondition, failed, Plugin, put_if, IsLawful}
use clued.Store.Multi.{
  missing, on_primary, Members, fan_result, note_failure, fan_copies, fanout, put_all_if,
}
use clued.Store.Optimistic.{put_if-written, put_if-refused}

-- Whether a store is named among those that failed.
abbrev pub IsNamed : Str → List (Str × Failure) → Type 0
IsNamed name fs = (f : Failure) × (lookup name fs ≡ some f)

note_failure-IsNamed :
    (name other : Str) (r : Result Failure (Unit {0})) (fs : List (Str × Failure))
    → IsNamed name fs
    → IsNamed name (note_failure other r fs)
unfolding note_failure
note_failure-IsNamed name other (ok _) fs (f, n) = (f, n)
note_failure-IsNamed name other (err not_found) fs (f, n) = (f, n)
note_failure-IsNamed name other (err precondition) fs (f, n) =
    elim (Option-cases (lookup name (insert other precondition fs))) [
      | inl gone ↦ absurd (ground (arith, lookup-insert other name precondition fs))
      | inr there ↦ there
    ]
note_failure-IsNamed name other (err failed) fs (f, n) =
    elim (Option-cases (lookup name (insert other failed fs))) [
      | inl gone ↦ absurd (ground (arith, lookup-insert other name failed fs))
      | inr there ↦ there
    ]

fan_result_injective : (fs gs : List (Str × Failure)) → fan_result fs ≡ fan_result gs → fs ≡ gs
fan_result_injective [] [] h = refl
fan_result_injective [] (g ∷ gs) h = cc
fan_result_injective (f ∷ fs) [] h = cc
fan_result_injective (f ∷ fs) (g ∷ gs) h = cc

fan_result_missing : (fs : List (Str × Failure)) → fan_result fs ≢ err missing
fan_result_missing [] h = cc
fan_result_missing (f ∷ fs) h = cc

fan_result_primary : (fs : List (Str × Failure)) (e : Failure) → fan_result fs ≢ err (on_primary e)
fan_result_primary [] e h = cc
fan_result_primary (f ∷ fs) e h = cc

module _ {S : Type 0} (plugin : Plugin S) (lawful : IsLawful plugin) where
  -- The store holds the document, or is named among those that failed.
  abbrev pub Holds : Document → List (Str × Failure) → Str × S → Type 0
  Holds d fs (name, s) = (plugin.get d.kind (id_of d) s ≡ ok d) ⊎ IsNamed name fs

  fan_copies-IsNamed :
      (d : Document) (name : Str) (fs : List (Str × Failure)) (copies : Members S)
      → IsNamed name fs
      → IsNamed name (fan_copies (plugin.put d) fs copies).1
  unfolding fan_copies
  fan_copies-IsNamed d name fs [] h = h
  fan_copies-IsNamed d name fs ((other, s) ∷ copies) h =
      fan_copies-IsNamed d name (note_failure other (plugin.put d s).1 fs) copies
        (note_failure-IsNamed name other (plugin.put d s).1 fs h)

  fan_copies-Holds :
      (d : Document) (fs : List (Str × Failure)) (copies : Members S)
      → All
          (Holds d (fan_copies (plugin.put d) fs copies).1)
          (fan_copies (plugin.put d) fs copies).0
  unfolding fan_copies note_failure
  fan_copies-Holds d fs [] = tt
  fan_copies-Holds d fs ((name, s) ∷ copies) =
      let fs' = note_failure name (plugin.put d s).1 fs in
      (
        elim (Result-cases (plugin.put d s).1) [
          | inl (u, done) ↦ inl (lawful.get-put d s done)
          | inr (not_found, how) ↦ absurd (lawful.put-creates d s how)
          | inr (precondition, how) ↦ inr (
              fan_copies-IsNamed d name fs' copies
                (precondition, rw (how, note_failure) (lookup-insert_self name precondition fs)))
          | inr (failed, how) ↦ inr (
              fan_copies-IsNamed d name fs' copies
                (failed, rw (how, note_failure) (lookup-insert_self name failed fs)))
        ],
        fan_copies-Holds d fs' copies,
      )

  -- When `PutIf` succeeds, on all stores or with a `FanoutError`, the primary store held the version
  -- it expected, and afterwards every store holds the document or is named in the error.
  pub put_all_if-Holds :
      (d : Document) (prev name : Str) (s : S) (copies : Members S) (fs : List (Str × Failure))
      → (put_all_if plugin d prev ((name, s) ∷ copies)).1 ≡ fan_result fs
      → ((cur : Document) × (plugin.get d.kind (id_of d) s ≡ ok cur) × (updated_of cur ≡ prev))
        × All (Holds d fs) (put_all_if plugin d prev ((name, s) ∷ copies)).0
  unfolding put_all_if fanout
  put_all_if-Holds d prev name s copies fs h = elim (Result-cases (put_if plugin d prev s).1) [
    | inr (not_found, how) ↦ absurd (fan_result_missing fs (ground arith))
    | inr (precondition, how) ↦ absurd (fan_result_primary fs precondition (ground arith))
    | inr (failed, how) ↦ absurd (fan_result_primary fs failed (ground arith))
    | inl (u, done) ↦
        let noted = (fan_copies (plugin.put d) [] copies).1 in
        let same : noted ≡ fs = fan_result_injective noted fs (ground arith) in
        let (before, after) = put_if-written plugin lawful d prev s done in
        (
          before,
          rw (done, All)
              (
                inl after,
                subst (λ gs. All (Holds d gs) (fan_copies (plugin.put d) [] copies).0) same
                    (fan_copies-Holds d [] copies),
              ),
        )
  ]

  -- When the primary store does not hold the version that `PutIf` expects, it fails, and no store
  -- is changed.
  put_all_if-stale :
      (d cur : Document) (prev name : Str) (s : S) (copies : Members S)
      → plugin.get d.kind (id_of d) s ≡ ok cur
      → updated_of cur ≢ prev
      → ((put_all_if plugin d prev ((name, s) ∷ copies)).0 ≡ (name, s) ∷ copies)
        × ((put_all_if plugin d prev ((name, s) ∷ copies)).1 ≢ ok tt)
  unfolding put_all_if fanout
  put_all_if-stale d cur prev name s copies got stale =
      elim (Result-cases (put_if plugin d prev s).1) [
        | inl (u, done) ↦
            let ((found, held, fresh), after) = put_if-written plugin lawful d prev s done in
            absurd (stale (ground arith))
        | inr (not_found, how) ↦ ground (arith, put_if-refused plugin lawful d prev s not_found)
        | inr (precondition, how) ↦
            ground (arith, put_if-refused plugin lawful d prev s precondition)
        | inr (failed, how) ↦ ground (arith, put_if-refused plugin lawful d prev s failed)
      ]

  put_all_if-members :
      (d : Document) (prev name : Str) (s : S) (copies : Members S)
      → (put_if plugin d prev s).1 ≡ ok tt
      → (put_all_if plugin d prev ((name, s) ∷ copies)).0
        ≡ (name, (put_if plugin d prev s).0) ∷ (fan_copies (plugin.put d) [] copies).0
  unfolding put_all_if fanout
  put_all_if-members d prev name s copies done = ground arith

  -- No update is lost: of two `PutIf` of a document that expect the same version, the second fails
  -- and changes no store, if the first succeeded on the primary store and wrote another version.
  pub put_all_if-put_all_if :
      (d e : Document) (prev name : Str) (s : S) (copies : Members S) (fs : List (Str × Failure))
      → (put_all_if plugin d prev ((name, s) ∷ copies)).1 ≡ fan_result fs
      → updated_of d ≢ prev
      → e.kind ≡ d.kind
      → id_of e ≡ id_of d
      → ((put_all_if plugin e prev (put_all_if plugin d prev ((name, s) ∷ copies)).0).0
          ≡ (put_all_if plugin d prev ((name, s) ∷ copies)).0)
        × ((put_all_if plugin e prev (put_all_if plugin d prev ((name, s) ∷ copies)).0).1 ≢ ok tt)
  unfolding put_all_if fanout
  put_all_if-put_all_if d e prev name s copies fs h new k i =
      elim (Result-cases (put_if plugin d prev s).1) [
        | inr (not_found, how) ↦ absurd (fan_result_missing fs (ground arith))
        | inr (precondition, how) ↦ absurd (fan_result_primary fs precondition (ground arith))
        | inr (failed, how) ↦ absurd (fan_result_primary fs failed (ground arith))
        | inl (u, done) ↦
            let (before, after) = put_if-written plugin lawful d prev s done in
            let held : plugin.get e.kind (id_of e) (put_if plugin d prev s).0 ≡ ok d =
              subst (λ a. plugin.get a (id_of e) (put_if plugin d prev s).0 ≡ ok d) (sym k)
                (subst (λ b. plugin.get d.kind b (put_if plugin d prev s).0 ≡ ok d) (sym i)
                  after) in
            subst
              (λ ms.
                ((put_all_if plugin e prev ms).0 ≡ ms) × ((put_all_if plugin e prev ms).1 ≢ ok tt))
              (sym (put_all_if-members d prev name s copies done))
              (put_all_if-stale e d prev name (put_if plugin d prev s).0
                (fan_copies (plugin.put d) [] copies).0 held new)
      ]
