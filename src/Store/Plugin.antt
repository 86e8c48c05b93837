-- ===== src/Store/Plugin.antt =====
-- What mind-palace/store/store.go asks of a storage plugin that keeps documents: `Get`, `Put`,
-- `Delete` and, where the plugin has it, `PutIf`.
use clued.Base.{
  ◌⊎◌, Bool, false, ◌&&◌, ◌≡◌, ◌≢◌, Option, none, some, Str, str_eq, if◌then◌else◌, Result, ok, err,
}
use clued.Model.{Document, id_of, updated_of}

-- `ErrNotFound`, `ErrPrecondition`, and any other error.
pub data Failure : Type 0 where
  not_found precondition failed : Failure

abbrev pub Write : Type 0 → Type 0
Write S = S → S × Result Failure (Unit {0})

pub record Plugin (S : Type 0) : Type 0 where
  pub get : Str → Str → S → Result Failure Document
  pub put : Document → Write S
  pub delete : Str → Str → Write S
  pub put_if : Option (Document → Str → Write S)

-- The package function `PutIf`.
unfoldable pub put_if : {S : Type 0} → Plugin S → Document → Str → Write S
put_if plugin d prev s = elim plugin.put_if [
  | some conditional ↦ conditional d prev s
  | none ↦ elim (plugin.get d.kind (id_of d) s) [
    | err not_found ↦ (s, err precondition)
    | err precondition ↦ (s, err precondition)
    | err failed ↦ (s, err failed)
    | ok cur ↦ if str_eq (updated_of cur) prev then plugin.put d s else (s, err precondition)
  ]
]

-- What `MultiStore` relies on of a plugin's `PutIf`. The documentation of `ConditionalPutter` says
-- `written`, and `refused` of `ErrPrecondition`.
pub record IsConditional {S : Type 0} (plugin : Plugin S) (c : Document → Str → Write S)
    : Type 0 where
  pub written :
      (d : Document) (prev : Str) (s : S)
      → (c d prev s).1 ≡ ok tt
      → ((cur : Document) × (plugin.get d.kind (id_of d) s ≡ ok cur) × (updated_of cur ≡ prev))
        × (plugin.get d.kind (id_of d) (c d prev s).0 ≡ ok d)
  pub refused :
      (d : Document) (prev : Str) (s : S) (f : Failure)
      → (c d prev s).1 ≡ err f
      → (c d prev s).0 ≡ s

abbrev pub Conditional : {S : Type 0} → Plugin S → Option (Document → Str → Write S) → Type 0
Conditional plugin none = Unit {0}
Conditional plugin (some c) = IsConditional plugin c

-- What `MultiStore` relies on of a plugin. The documentation of `Store` says `get-put` and
-- `put-creates`; that a failed `Put` changes nothing holds of the memory plugin.
pub record IsLawful {S : Type 0} (plugin : Plugin S) : Type 0 where
  pub get-put :
      (d : Document) (s : S)
      → (plugin.put d s).1 ≡ ok tt
      → plugin.get d.kind (id_of d) (plugin.put d s).0 ≡ ok d
  pub put-err :
      (d : Document) (s : S) (f : Failure) → (plugin.put d s).1 ≡ err f → (plugin.put d s).0 ≡ s
  -- a document that is not there is created, never not found
  pub put-creates : (d : Document) (s : S) → (plugin.put d s).1 ≢ err not_found
  pub conditional : Conditional plugin plugin.put_if

-- Whether a document has the kind and the id.
abbrev pub has_key : Str → Str → Document → Bool
has_key kind id d = str_eq d.kind kind && str_eq (id_of d) id

-- The stored document is missing, or its `updated` is not the expected one.
abbrev pub IsStale : {S : Type 0} → Plugin S → Document → Str → S → Type 0
IsStale plugin d prev s =
    (plugin.get d.kind (id_of d) s ≡ err not_found)
    ⊎ ((cur : Document) × (plugin.get d.kind (id_of d) s ≡ ok cur)
        × (str_eq (updated_of cur) prev ≡ false))

-- What a plugin's `PutIf` does, beside its `Put`: on the expected version it is `Put`; on a stale
-- one it is `ErrPrecondition`, unless `Put` of that document fails too.
pub record IsPutIf {S : Type 0} (plugin : Plugin S) (c : Document → Str → Write S) : Type 0 where
  pub fresh :
      (d cur : Document) (prev : Str) (s : S)
      → plugin.get d.kind (id_of d) s ≡ ok cur
      → updated_of cur ≡ prev
      → c d prev s ≡ plugin.put d s
  pub stale :
      (d : Document) (prev : Str) (s : S)
      → IsStale plugin d prev s
      → (plugin.put d s).1 ≡ ok tt
      → c d prev s ≡ (s, err precondition)
  pub broken :
      (d : Document) (prev : Str) (s : S) (f : Failure)
      → IsStale plugin d prev s
      → (plugin.put d s).1 ≡ err f
      → c d prev s ≡ (s, err f)

-- The contract of `Get`, `Put`, `Delete` and `PutIf` by kind and id: beside the above, a write of a
-- document leaves those of another kind or id as they are; a delete that succeeds removes the
-- document, one of a missing document does not succeed, and one that fails changes nothing.
pub record IsStore {S : Type 0} (plugin : Plugin S) (c : Document → Str → Write S) : Type 0 where
  pub lawful : IsLawful plugin
  pub is_put_if : plugin.put_if ≡ some c
  pub put_if_laws : IsPutIf plugin c
  pub put_others :
      (d : Document) (kind id : Str) (s : S)
      → has_key kind id d ≡ false
      → plugin.get kind id (plugin.put d s).0 ≡ plugin.get kind id s
  pub put_if_others :
      (d : Document) (prev kind id : Str) (s : S)
      → has_key kind id d ≡ false
      → plugin.get kind id (c d prev s).0 ≡ plugin.get kind id s
  pub deleted :
      (kind id : Str) (s : S)
      → (plugin.delete kind id s).1 ≡ ok tt
      → plugin.get kind id (plugin.delete kind id s).0 ≡ err not_found
  pub delete_missing :
      (kind id : Str) (s : S)
      → plugin.get kind id s ≡ err not_found
      → (plugin.delete kind id s).1 ≢ ok tt
  pub delete_others :
      (kind id kind' id' : Str) (s : S)
      → (str_eq kind kind' && str_eq id id') ≡ false
      → plugin.get kind' id' (plugin.delete kind id s).0 ≡ plugin.get kind' id' s
  pub delete-err :
      (kind id : Str) (s : S) (f : Failure)
      → (plugin.delete kind id s).1 ≡ err f
      → (plugin.delete kind id s).0 ≡ s
