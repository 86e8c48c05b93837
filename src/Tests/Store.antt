-- ===== src/Tests/Store.antt =====
-- The storage layer on concrete states.
use mathlib.Core.List.{Memᴰ}
use clued.Base.{
  ◌+◌, ◌≡◌, ◌≢◌, refl, true, false, none, All, trim_space, List, [], ◌∷◌, arith, Str, bytes, str_eq,
  lookup, insert, delete, some, ok, err,
}
use clued.Model.{plan, Document, pos, updated_of, is_kind}
use clued.Store.Plugin.{Failure, failed, IsStore, put_if}
use clued.Store.Memory.{Memory, memory, find_doc, set_doc}
use clued.Store.MemoryLaws.{memory-IsLawful, memory-IsStore}
use clued.Store.Multi.{put_all_if, partial, fan_copies, fanout, Members}
use clued.Store.Fanning.{Holds, put_all_if-Holds, put_all_if-put_all_if}
use clued.Store.Leases.{
  Lease, Leases, leased, lease_key, acquire_lease, release_lease, acquire, release, run, Turn,
  lease_lock,
}
use clued.Store.Exclusion.{
  acquire_lease-excludes, acquire_lease-release_lease, acquire_lease-expired, lease_lock-ok,
}

abbrev doc : Str
doc = bytes "0001-abc"

-- A try by another holder and a release under another id.
abbrev others : List clued.Store.Leases.Call
others = acquire 20 30 (bytes "B") plan doc ∷ release plan doc (bytes "B") ∷ []

acquire_lease-excludes_example :
    acquire_lease 39 30
      (bytes "C")
      plan
      doc
      (run others (acquire_lease 10 30 (bytes "A") plan doc []).0)
    ≡ (run others (acquire_lease 10 30 (bytes "A") plan doc []).0, err leased)
unfolding acquire_lease str_eq lookup
acquire_lease-excludes_example =
    acquire_lease-excludes 10 30 (bytes "A") plan doc (bytes "A") [] others 39 30 (bytes "C") refl
      (omega arith, (refl, tt)) (omega arith)

acquire_lease-release_lease_example :
    (acquire_lease 21 30 (bytes "C") plan doc (
      release_lease plan doc
        (bytes "A")
        (run others (acquire_lease 10 30 (bytes "A") plan doc []).0))).1
    ≡ ok (bytes "C")
unfolding acquire_lease str_eq lookup
acquire_lease-release_lease_example =
    acquire_lease-release_lease 10 30 (bytes "A") plan doc (bytes "A") [] others 21 30 (bytes "C")
      refl (omega arith, (refl, tt))

acquire_lease-expired_example :
    (acquire_lease 40 30
      (bytes "C")
      plan
      doc
      (run others (acquire_lease 10 30 (bytes "A") plan doc []).0)).1
    ≡ ok (bytes "C")
unfolding acquire_lease str_eq lookup
acquire_lease-expired_example =
    acquire_lease-expired 10 30 (bytes "A") plan doc (bytes "A") [] others 40 30 (bytes "C") refl
      (omega arith, (refl, tt)) (omega arith)

-- The first turn meets another's lease, the second comes after its release.
abbrev turns : List Turn
turns =
    record { others = acquire 5 30 (bytes "B") plan doc ∷ []; now = 6; drawn = bytes "A" }
    ∷ record { others = release plan doc (bytes "B") ∷ []; now = 7; drawn = bytes "D" }
    ∷ []

lease_lock-ok_example :
    (turn : Turn) × Memᴰ turn turns
    × (lookup (lease_key plan doc) (lease_lock 30 plan doc turns []).0
        ≡ some (record { id = bytes "D"; expires = turn.now + 30 }))
unfolding lease_lock acquire_lease run str_eq lookup insert delete
lease_lock-ok_example = lease_lock-ok 30 plan doc (bytes "D") turns [] refl

-- A plan at a version.
abbrev at_version : Str → Document
at_version updated = record {
  kind = plan;
  path = [];
  content = [];
  front_matter = record {
    id = doc;
    title = [];
    purpose = [];
    type = [];
    status = [];
    priority = [];
    effort = [];
    created = [];
    updated = updated;
    started = [];
    completed = [];
    tags = [];
    milestone = [];
    due_date = [];
    planned_start = [];
    planned_end = [];
    order = pos 0;
    assignee = [];
    links = none;
    progress = [];
  };
}

abbrev old : Document
old = at_version (bytes "1")

abbrev new : Document
new = at_version (bytes "2")

-- Go's strings.ToLower on lower-case names.
abbrev same_case : Str → Str
same_case s = s

-- A primary store with the plan, an empty copy, and a copy that fails.
abbrev copies : Members Memory
copies =
    (bytes "b", record { docs = []; fail_writes = false })
    ∷ (bytes "c", record { docs = []; fail_writes = true })
    ∷ []

abbrev primary : Memory
primary = record { docs = old ∷ []; fail_writes = false }

abbrev failures : List (Str × Failure)
failures = (bytes "c", failed) ∷ []

put_partial :
    (put_all_if (memory same_case) new (bytes "1") ((bytes "a", primary) ∷ copies)).1
    ≡ err (partial failures)
unfolding put_all_if fanout put_if fan_copies insert is_kind trim_space find_doc set_doc str_eq
    clued.Store.Memory.put clued.Store.Memory.put_if
put_partial = refl

memory-IsStore_example : IsStore (memory same_case) (clued.Store.Memory.put_if same_case)
memory-IsStore_example = memory-IsStore same_case

put_all_if-Holds_example :
    ((cur : Document) × ((memory same_case).get plan doc primary ≡ ok cur)
      × (updated_of cur ≡ bytes "1"))
    × All
        (Holds (memory same_case) (memory-IsLawful same_case) new failures)
        (put_all_if (memory same_case) new (bytes "1") ((bytes "a", primary) ∷ copies)).0
put_all_if-Holds_example =
    put_all_if-Holds (memory same_case) (memory-IsLawful same_case) new (bytes "1") (bytes "a")
      primary copies failures put_partial

put_all_if-put_all_if_example :
    ((put_all_if
        (memory same_case)
        new
        (bytes "1")
        (put_all_if (memory same_case) new (bytes "1") ((bytes "a", primary) ∷ copies)).0).0
      ≡ (put_all_if (memory same_case) new (bytes "1") ((bytes "a", primary) ∷ copies)).0)
    × ((put_all_if
          (memory same_case)
          new
          (bytes "1")
          (put_all_if (memory same_case) new (bytes "1") ((bytes "a", primary) ∷ copies)).0).1
        ≢ ok tt)
put_all_if-put_all_if_example =
    put_all_if-put_all_if (memory same_case) (memory-IsLawful same_case) new new (bytes "1")
      (bytes "a") primary copies failures put_partial (λ e. ground arith) refl refl
