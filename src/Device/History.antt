-- ===== src/Device/History.antt =====
-- Any sequence of calls of mind-palace/server/device/device.go on a new flow.
use clued.Base.{
  ℕ, ◌≡◌, refl, true, false, none, some, List, [], ◌∷◌, arith, Str, ltb, Option-cases, inl, inr, ok,
}
use clued.Auth.Token.{Principal}
use clued.Device.Codes.{Unicode}
use clued.Device.Tokens.{Tokens}
use clued.Device.Flow.{
  Flow, Request, Link, State, pending, approved, denied, is_pending, Draws, find, start, poll, deny,
  list_pending, new_flow,
}
use clued.Device.Approval.{approve}
use clued.Device.Invariant.{Coherent, Located, find_device-Located, new_flow-Coherent}
use clued.Device.Calls.{
  WellFormed, DrawsFresh, start-WellFormed, poll-WellFormed, deny-WellFormed, approve-WellFormed,
  prune-WellFormed,
}
use clued.Device.Answers.{answer, stays, poll-answer}

pub data Call : Type 0 where
  starts : (now : ℕ) → Draws → (client : Str) → (info : List (Str × Str)) → Call
  polls : (now : ℕ) → (code : Str) → Call
  approves : (now : ℕ) → (code : Str) → Principal → (name : Str) → (projects : List Str) → Call
  denies : (now : ℕ) → (code : Str) → Call
  lists : (now : ℕ) → Call

module _ (T : Tokens) (u : Unicode) where
  open T use {Store}

  -- A `Start` whose draws run out of fuel has not returned yet, and holds the lock.
  abbrev pub after_call : Flow × Store → Call → Flow × Store
  after_call (f, s) (starts now draws client info) = elim (start f now draws client info) [
    | none ↦ (f, s)
    | some (f', outcome) ↦ (f', s)
  ]
  after_call (f, s) (polls now code) = ((poll f now code).0, s)
  after_call (f, s) (approves now code by name projects) =
      let (f', s', outcome) = approve T u f s now code by name projects in (f', s')
  after_call (f, s) (denies now code) = ((deny u f now code).0, s)
  after_call (f, s) (lists now) = ((list_pending f now).0, s)

  pub run : Flow × Store → List Call → Flow × Store
  run fs [] = fs
  run fs (c ∷ calls) = run (after_call fs c) calls

  -- No `Start` draws a device code that is in use.
  abbrev pub CallFresh : Flow → Call → Type 0
  CallFresh f (starts now draws client info) = DrawsFresh f now draws
  CallFresh f (polls now code) = Unit {0}
  CallFresh f (approves now code by name projects) = Unit {0}
  CallFresh f (denies now code) = Unit {0}
  CallFresh f (lists now) = Unit {0}

  abbrev pub IsFresh : Flow × Store → List Call → Type 0
  IsFresh fs [] = Unit {0}
  IsFresh fs (c ∷ calls) = CallFresh fs.0 c × IsFresh (after_call fs c) calls

  after_call-WellFormed :
      (f : Flow) (s : Store) (c : Call)
      → CallFresh f c
      → WellFormed f
      → WellFormed (after_call (f, s) c).0
  unfolding list_pending
  after_call-WellFormed f s (starts now draws client info) fresh w =
      elim (Option-cases (start f now draws client info)) [
        | inl m ↦ rw (m, after_call) w
        | inr ((f', outcome), m) ↦
            rw (m, after_call) (start-WellFormed f f' now draws client info outcome w fresh m)
      ]
  after_call-WellFormed f s (polls now code) fresh w = poll-WellFormed f now code w
  after_call-WellFormed f s (approves now code by name projects) fresh w =
      approve-WellFormed T u f s now code by name projects w
  after_call-WellFormed f s (denies now code) fresh w = deny-WellFormed u f now code w
  after_call-WellFormed f s (lists now) fresh w = prune-WellFormed now f w

  run_from-WellFormed :
      (f : Flow) (s : Store) (calls : List Call)
      → WellFormed f
      → IsFresh (f, s) calls
      → WellFormed (run (f, s) calls).0
  unfolding run
  run_from-WellFormed f s [] w fresh = w
  run_from-WellFormed f s (c ∷ calls) w fresh =
      run_from-WellFormed (after_call (f, s) c).0 (after_call (f, s) c).1 calls
        (after_call-WellFormed f s c fresh.0 w) fresh.1

  -- After any calls on a new flow, with device codes drawn afresh, the two maps hold the same
  -- requests, each under its own codes, and there are at most `MaxPending` of them.
  pub run-WellFormed :
      (ttl interval : ℕ) (s : Store) (calls : List Call)
      → IsFresh (new_flow ttl interval, s) calls
      → WellFormed (run (new_flow ttl interval, s) calls).0
  run-WellFormed ttl interval s calls fresh =
      run_from-WellFormed (new_flow ttl interval) s calls
        (record {
          coherent = new_flow-Coherent ttl interval;
          bounded = unfold new_flow in omega arith;
        })
        fresh

answer-ok :
    (f : Flow) (now : ℕ) (r : Request) (state : State) (link : Link)
    → r.state ≡ state
    → answer f now r ≡ ok link
    → (r.state ≡ approved) × (r.link ≡ link) × (ltb now r.expires ≡ true) × (stays f now r ≡ false)
unfolding answer stays is_pending
answer-ok f now r pending link s e = absurd (ground arith)
answer-ok f now r denied link s e = absurd (ground arith)
answer-ok f now r approved link s e = (s, ground arith, ground arith, ground arith)

-- A `Poll` hands a link over only if the flow holds an approved request with the device code
-- whose time has not run out, and the link is that request's.
pub poll-ok :
    (f f' : Flow) (now : ℕ) (code : Str) (link : Link)
    → Coherent f
    → poll f now code ≡ (f', ok link)
    → (a : ℕ) × (r : Request) × Located f a r
      × (r.device_code ≡ code)
      × (r.state ≡ approved)
      × (r.link ≡ link)
      × (ltb now r.expires ≡ true)
      × (find f' f'.by_device code ≡ none)
unfolding poll find
poll-ok f f' now code link c e = elim (Option-cases (find f f.by_device code)) [
  | inl m ↦ absurd (ground arith)
  | inr ((a, r), m) ↦
      let (l, named) = find_device-Located f c code a r m in
      let (told, left) = poll-answer f now a r l in
      let outcome : poll f now r.device_code ≡ (f', ok link) = rw named e in
      let (was_approved, linked, live, gone) = answer-ok f now r r.state link refl (ground arith) in
      (a, r, l, named, was_approved, linked, live, rw (← named) (ground arith))
]
