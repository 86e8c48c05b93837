-- ===== src/Store/Exclusion.antt =====
-- The leases of mind-palace/store/store.go exclude each other.
use mathlib.Core.List.{Memᴰ}
use clued.Base.{
  ℕ, ◌+◌, ◌≡◌, refl, false, ◌&&◌, none, some, List, [], ◌∷◌, arith, Str, str_eq, str_eq_iff,
  str_eq_refl, lookup, lookup-insert, lookup-delete, lookup-insert_self, lookup-delete_self, lt→ltb,
  Option-cases, inl, inr, Result-cases, ok, err, ◌≤◌, ◌<◌,
}
use clued.Store.Leases.{
  leased, Lease, Leases, lease_key, grant, acquire_lease, release_lease, Call, acquire, release,
  step, run, Turn, lease_lock,
}

-- Before the lease's end, and no release of it.
abbrev pub IsForeign : Str → Lease → Call → Type 0
IsForeign k l (acquire now ttl drawn kind id) = now < l.expires
IsForeign k l (release kind id lease) = (str_eq (lease_key kind id) k && str_eq lease l.id) ≡ false

abbrev pub AllForeign : Str → Lease → List Call → Type 0
AllForeign k l [] = Unit {0}
AllForeign k l (call ∷ calls) = IsForeign k l call × AllForeign k l calls

acquire-keeps :
    (k : Str) (l : Lease) (now ttl : ℕ) (drawn kind id : Str) (leases : Leases)
    → lookup k leases ≡ some l
    → now < l.expires
    → lookup k (acquire_lease now ttl drawn kind id leases).0 ≡ some l
unfolding acquire_lease grant
acquire-keeps k l now ttl drawn kind id leases h before =
    let new : Lease = record { id = drawn; expires = now + ttl } in
    elim (Option-cases (lookup (lease_key kind id) leases)) [
      | inl free ↦
          ground (
            arith,
            lookup-insert (lease_key kind id) k new leases,
            str_eq_iff (lease_key kind id) k,
          )
      | inr (cur, taken) ↦
          ground (
            arith,
            lookup-insert (lease_key kind id) k new leases,
            str_eq_iff (lease_key kind id) k,
          )
    ]

release-keeps :
    (k : Str) (l : Lease) (kind id lease : Str) (leases : Leases)
    → lookup k leases ≡ some l
    → (str_eq (lease_key kind id) k && str_eq lease l.id) ≡ false
    → lookup k (release_lease kind id lease leases) ≡ some l
unfolding release_lease
release-keeps k l kind id lease leases h other =
    elim (Option-cases (lookup (lease_key kind id) leases)) [
      | inl free ↦ ground arith
      | inr (cur, taken) ↦ ground (
        arith,
        lookup-delete (lease_key kind id) k leases,
        str_eq_iff (lease_key kind id) k,
        str_eq_iff cur.id lease,
        str_eq_iff lease l.id,
      )
    ]

run-keeps :
    (k : Str) (l : Lease) (calls : List Call) (leases : Leases)
    → lookup k leases ≡ some l
    → AllForeign k l calls
    → lookup k (run calls leases) ≡ some l
unfolding run step
run-keeps k l [] leases h f = h
run-keeps k l (acquire now ttl drawn kind id ∷ calls) leases h (f, fs) =
    run-keeps k l calls (acquire_lease now ttl drawn kind id leases).0
      (acquire-keeps k l now ttl drawn kind id leases h f) fs
run-keeps k l (release kind id lease ∷ calls) leases h (f, fs) =
    run-keeps k l calls (release_lease kind id lease leases)
      (release-keeps k l kind id lease leases h f) fs

acquire-grants :
    (now ttl : ℕ) (drawn kind id lease : Str) (leases : Leases)
    → (acquire_lease now ttl drawn kind id leases).1 ≡ ok lease
    → lookup (lease_key kind id) (acquire_lease now ttl drawn kind id leases).0
      ≡ some (record { id = lease; expires = now + ttl })
unfolding acquire_lease grant
acquire-grants now ttl drawn kind id lease leases h =
    let new : Lease = record { id = drawn; expires = now + ttl } in
    elim (Option-cases (lookup (lease_key kind id) leases)) [
      | inl free ↦ ground (arith, lookup-insert_self (lease_key kind id) new leases)
      | inr (cur, taken) ↦ ground (arith, lookup-insert_self (lease_key kind id) new leases)
    ]

acquire-refuses :
    (now ttl : ℕ) (drawn kind id : Str) (l : Lease) (leases : Leases)
    → lookup (lease_key kind id) leases ≡ some l
    → now < l.expires
    → acquire_lease now ttl drawn kind id leases ≡ (leases, err leased)
unfolding acquire_lease
acquire-refuses now ttl drawn kind id l leases h before =
    rw (h, acquire_lease) (rw (lt→ltb now l.expires before) refl)

-- Leases exclude each other: once a lease on a document is granted, every try for that document
-- before its end is refused and changes nothing, whatever calls come between, none of them later
-- than the lease's end and none a release of this lease.
pub acquire_lease-excludes :
    (now ttl : ℕ) (drawn kind id lease : Str) (leases : Leases) (calls : List Call) (later ttl' : ℕ)
    (drawn' : Str)
    → (acquire_lease now ttl drawn kind id leases).1 ≡ ok lease
    → AllForeign (lease_key kind id) (record { id = lease; expires = now + ttl }) calls
    → later < now + ttl
    → acquire_lease later ttl' drawn' kind id
        (run calls (acquire_lease now ttl drawn kind id leases).0)
      ≡ (run calls (acquire_lease now ttl drawn kind id leases).0, err leased)
acquire_lease-excludes now ttl drawn kind id lease leases calls later ttl' drawn' h f before =
    let l : Lease = record { id = lease; expires = now + ttl } in
    let held : lookup (lease_key kind id) (run calls (acquire_lease now ttl drawn kind id leases).0)
        ≡ some l =
      run-keeps (lease_key kind id) l calls (acquire_lease now ttl drawn kind id leases).0
        (acquire-grants now ttl drawn kind id lease leases h) f in
    acquire-refuses later ttl' drawn' kind id l
      (run calls (acquire_lease now ttl drawn kind id leases).0) held before

acquire-free :
    (now ttl : ℕ) (drawn kind id : Str) (leases : Leases)
    → lookup (lease_key kind id) leases ≡ none
    → (acquire_lease now ttl drawn kind id leases).1 ≡ ok drawn
unfolding acquire_lease grant
acquire-free now ttl drawn kind id leases h = ground arith

acquire-expired :
    (now ttl : ℕ) (drawn kind id : Str) (l : Lease) (leases : Leases)
    → lookup (lease_key kind id) leases ≡ some l
    → l.expires ≤ now
    → (acquire_lease now ttl drawn kind id leases).1 ≡ ok drawn
unfolding acquire_lease grant
acquire-expired now ttl drawn kind id l leases h late = ground arith

release-frees :
    (kind id : Str) (l : Lease) (leases : Leases)
    → lookup (lease_key kind id) leases ≡ some l
    → lookup (lease_key kind id) (release_lease kind id l.id leases) ≡ none
unfolding release_lease
release-frees kind id l leases h =
    ground (arith, str_eq_refl l.id, lookup-delete_self (lease_key kind id) leases)

-- A holder's release frees the document at once: after it the next try for the document is granted,
-- whatever calls came between grant and release, none of them later than the lease's end and none
-- a release of this lease.
pub acquire_lease-release_lease :
    (now ttl : ℕ) (drawn kind id lease : Str) (leases : Leases) (calls : List Call) (later ttl' : ℕ)
    (drawn' : Str)
    → (acquire_lease now ttl drawn kind id leases).1 ≡ ok lease
    → AllForeign (lease_key kind id) (record { id = lease; expires = now + ttl }) calls
    → (acquire_lease later ttl' drawn' kind id
        (release_lease kind id lease (run calls (acquire_lease now ttl drawn kind id leases).0))).1
      ≡ ok drawn'
acquire_lease-release_lease now ttl drawn kind id lease leases calls later ttl' drawn' h f =
    let l : Lease = record { id = lease; expires = now + ttl } in
    let after = run calls (acquire_lease now ttl drawn kind id leases).0 in
    let held : lookup (lease_key kind id) after ≡ some l =
      run-keeps (lease_key kind id) l calls (acquire_lease now ttl drawn kind id leases).0
        (acquire-grants now ttl drawn kind id lease leases h) f in
    acquire-free later ttl' drawn' kind id (release_lease kind id lease after)
      (release-frees kind id l after held)

-- A lease that nobody released blocks nobody from its end on: the next try is granted.
pub acquire_lease-expired :
    (now ttl : ℕ) (drawn kind id lease : Str) (leases : Leases) (calls : List Call) (later ttl' : ℕ)
    (drawn' : Str)
    → (acquire_lease now ttl drawn kind id leases).1 ≡ ok lease
    → AllForeign (lease_key kind id) (record { id = lease; expires = now + ttl }) calls
    → now + ttl ≤ later
    → (acquire_lease later ttl' drawn' kind id
        (run calls (acquire_lease now ttl drawn kind id leases).0)).1
      ≡ ok drawn'
acquire_lease-expired now ttl drawn kind id lease leases calls later ttl' drawn' h f late =
    let l : Lease = record { id = lease; expires = now + ttl } in
    let after = run calls (acquire_lease now ttl drawn kind id leases).0 in
    let held : lookup (lease_key kind id) after ≡ some l =
      run-keeps (lease_key kind id) l calls (acquire_lease now ttl drawn kind id leases).0
        (acquire-grants now ttl drawn kind id lease leases h) f in
    acquire-expired later ttl' drawn' kind id l after held late

-- When `LeaseLock` returns a lease, the document is leased under it from one of the turns on, for the
-- time that was asked for.
pub lease_lock-ok :
    (ttl : ℕ) (kind id lease : Str) (turns : List Turn) (leases : Leases)
    → (lease_lock ttl kind id turns leases).1 ≡ ok lease
    → (turn : Turn) × Memᴰ turn turns
      × (lookup (lease_key kind id) (lease_lock ttl kind id turns leases).0
          ≡ some (record { id = lease; expires = turn.now + ttl }))
unfolding lease_lock
lease_lock-ok ttl kind id lease [] leases h = cc
lease_lock-ok ttl kind id lease (turn ∷ turns) leases h =
    let before = run turn.others leases in
    elim (Result-cases (acquire_lease turn.now ttl turn.drawn kind id before).1) [
      | inl (got, granted) ↦ (
        turn,
        Memᴰ.head refl,
        ground (arith, acquire-grants turn.now ttl turn.drawn kind id got before granted),
      )
      | inr (e, refused) ↦
          let (t, i, held) =
            lease_lock-ok ttl kind id lease turns
              (acquire_lease turn.now ttl turn.drawn kind id before).0 (ground arith) in
          (t, Memᴰ.tail i, ground (arith, held))
    ]
