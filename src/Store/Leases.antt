-- ===== src/Store/Leases.antt =====
-- `MemLeases` and `LeaseLock` of mind-palace/store/store.go. The clock's reading and the random
-- lease id are arguments of the calls.
use clued.Base.{
  ℕ, ◌+◌, none, some, List, [], ◌∷◌, ◌++◌, Str, str_eq, lookup, insert, delete, ltb, if◌then◌else◌,
  Result, ok, err,
}

-- `ErrLeased` and `ErrNoLease`. `MemLeases` returns the first alone.
pub data Error : Type 0 where
  leased no_lease : Error

pub record Lease : Type 0 where
  pub id : Str
  pub expires : ℕ

abbrev pub Leases : Type 0
Leases = List (Str × Lease)

abbrev pub lease_key : Str → Str → Str
lease_key kind id = kind ++ b'/' ∷ id

unfoldable pub grant : ℕ → ℕ → Str → Str → Leases → Leases × Result Error Str
grant now ttl drawn k leases =
    (insert k (record { id = drawn; expires = now + ttl }) leases, ok drawn)

unfoldable pub acquire_lease : ℕ → ℕ → Str → Str → Str → Leases → Leases × Result Error Str
unfolding grant
acquire_lease now ttl drawn kind id leases = elim (lookup (lease_key kind id) leases) [
  | none ↦ grant now ttl drawn (lease_key kind id) leases
  | some cur ↦
      if ltb now cur.expires
      then (leases, err leased)
      else grant now ttl drawn (lease_key kind id) leases
]

unfoldable pub release_lease : Str → Str → Str → Leases → Leases
release_lease kind id lease leases = elim (lookup (lease_key kind id) leases) [
  | none ↦ leases
  | some cur ↦ if str_eq cur.id lease then delete (lease_key kind id) leases else leases
]

-- A call by anyone who shares the leases.
pub data Call : Type 0 where
  acquire : (now ttl : ℕ) (drawn kind id : Str) → Call
  release : (kind id lease : Str) → Call

unfoldable pub step : Call → Leases → Leases
unfolding acquire_lease release_lease
step (acquire now ttl drawn kind id) leases = (acquire_lease now ttl drawn kind id leases).0
step (release kind id lease) leases = release_lease kind id lease leases

unfoldable pub run : List Call → Leases → Leases
unfolding step
run [] leases = leases
run (call ∷ calls) leases = run calls (step call leases)

-- One turn of the loop of `LeaseLock`: the calls of others since the turn before, then the time and
-- the id of its own try.
pub record Turn : Type 0 where
  pub others : List Call
  pub now : ℕ
  pub drawn : Str

-- `LeaseLock` on a `MemLeases`, with the turns it has until its context is done: it tries again
-- after `ErrLeased`, and gives up on another error.
unfoldable pub lease_lock : ℕ → Str → Str → List Turn → Leases → Leases × Result Error Str
lease_lock ttl kind id [] leases = (leases, err leased)
lease_lock ttl kind id (turn ∷ turns) leases =
    let (leases', result) =
      acquire_lease turn.now ttl turn.drawn kind id (run turn.others leases) in
    let later = lease_lock ttl kind id turns leases' in
    elim result [
      | ok lease ↦ (leases', ok lease)
      | err leased ↦ later
      | err no_lease ↦ (leases', err no_lease)
    ]
