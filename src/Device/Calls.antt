-- ===== src/Device/Calls.antt =====
-- Every call of mind-palace/server/device/device.go keeps the maps of a `Flow` together, and the
-- number of requests within its bound.
use clued.Base.{
  ℕ, ◌+◌, ◌≤◌, ◌<◌, ◌≡◌, refl, ap, subst, ◌∙◌, true, false, none, some, List, [], ◌∷◌, arith, Str,
  lookup, length, length-insert-le, length-delete-le, leb, ltb, Bool-cases, Option-cases,
  Result-cases, inl, inr, Result, ok, err,
}
use clued.Auth.Token.{Principal}
use clued.Device.Codes.{Unicode, normalize, draw_user_code, draw_user_code_free}
use clued.Device.Tokens.{Tokens}
use clued.Device.Flow.{
  Flow, Request, State, pending, approved, denied, Error, Start, Draws, write, find, remove, prune,
  prune_from, prune_code, register, start, poll, poll_request, collect, decidable, is_pending, deny,
  is_taken, max_pending, client_name_of,
}
use clued.Device.Grantable.{grantable}
use clued.Device.Approval.{approve, approve_request, settle}
use clued.Device.Invariant.{
  Coherent, Located, insert-Side, write-Coherent, remove-Coherent, find_device-Located,
  find_user-Located, prune-Coherent,
}

pub record WellFormed (f : Flow) : Type 0 where
  pub coherent : Coherent f
  pub bounded : length f.by_device ≤ max_pending

length-prune_code :
    (now : ℕ) (code : Str) (f : Flow)
    → length (prune_code now code f).by_device ≤ length f.by_device
unfolding prune_code remove
length-prune_code now code f = elim (Option-cases (find f f.by_device code)) [
  | inl m ↦ ground arith
  | inr ((a, r), m) ↦ ground (arith, length-delete-le r.device_code f.by_device)
]

length-prune_from :
    (now : ℕ) (entries : List (Str × ℕ)) (f : Flow)
    → length (prune_from now entries f).by_device ≤ length f.by_device
unfolding prune_from
length-prune_from now [] f = omega arith
length-prune_from now ((code, a) ∷ entries) f =
    omega
      (arith, length-prune_from now entries (prune_code now code f), length-prune_code now code f)

pub prune-WellFormed : (now : ℕ) (f : Flow) → WellFormed f → WellFormed (prune now f)
unfolding prune
prune-WellFormed now f w = record {
  coherent = prune-Coherent now f w.coherent;
  bounded = omega (arith, length-prune_from now f.by_device f, w.bounded);
}

remove-WellFormed :
    (f : Flow) (a : ℕ) (r : Request) → Located f a r → WellFormed f → WellFormed (remove f r)
remove-WellFormed f a r l w = record {
  coherent = remove-Coherent f w.coherent a r l;
  bounded = unfold remove in omega (arith, length-delete-le r.device_code f.by_device, w.bounded);
}

write-WellFormed :
    (f : Flow) (a : ℕ) (r r' : Request)
    → f.requests a ≡ some r
    → r'.device_code ≡ r.device_code
    → r'.user_code ≡ r.user_code
    → WellFormed f
    → WellFormed (record f { requests = write f.requests a r' })
write-WellFormed f a r r' at d u w = record {
  coherent = write-Coherent f w.coherent a r r' at d u;
  bounded = w.bounded;
}

-- The device code that a `Start` draws is none that the flow holds.
abbrev pub DrawsFresh : Flow → ℕ → Draws → Type 0
DrawsFresh f now draws =
    (code : Str) → draws.device_code ≡ some code → lookup code (prune now f).by_device ≡ none

pub register-WellFormed :
    (f : Flow) (now : ℕ) (device_code user_code client_name : Str) (info : List (Str × Str))
    → WellFormed f
    → length f.by_device < max_pending
    → lookup device_code f.by_device ≡ none
    → lookup user_code f.by_user ≡ none
    → WellFormed (register f now device_code user_code client_name info).0
unfolding register
register-WellFormed f now device_code user_code client_name info w room fresh free = record {
  coherent = record {
    device_side = insert-Side _ _ _ _ _ _ w.coherent.device_side _ free;
    user_side = insert-Side _ _ _ _ _ _ w.coherent.user_side _ fresh;
  };
  bounded = omega (arith, length-insert-le device_code (f.started + 1) f.by_device);
}

lookup_of_free :
    (codes : List (Str × ℕ)) (code : Str) → is_taken codes code ≡ false → lookup code codes ≡ none
unfolding is_taken
lookup_of_free codes code e = ground arith

pub start-WellFormed :
    (f f' : Flow) (now : ℕ) (draws : Draws) (client : Str) (info : List (Str × Str))
    (outcome : Result Error Start)
    → WellFormed f
    → DrawsFresh f now draws
    → start f now draws client info ≡ some (f', outcome)
    → WellFormed f'
unfolding start
start-WellFormed f f' now draws client info outcome w fresh e =
    let g : Flow = prune now f in
    let wg : WellFormed g = prune-WellFormed now f w in
    elim (Bool-cases (leb max_pending (length g.by_device))) [
      | inl full ↦ subst WellFormed (ground arith) wg
      | inr room ↦ elim (Option-cases draws.device_code) [
        | inl m ↦ subst WellFormed (ground arith) wg
        | inr (device, m) ↦
            elim (Option-cases
              (draw_user_code draws.fuel 0 draws.user_codes (is_taken g.by_user))) [
                | inl n ↦ absurd (ground arith)
                | inr (drawn, n) ↦ elim (Option-cases drawn) [
                  | inl o ↦ subst WellFormed (ground arith) wg
                  | inr (user, o) ↦ subst WellFormed (ground arith) (
                      register-WellFormed g now device user (client_name_of client) info wg
                        (ground arith) (fresh device m)
                        (lookup_of_free g.by_user user (
                          draw_user_code_free draws.fuel 0 draws.user_codes (is_taken g.by_user)
                            user (n ∙ ap some o))))
                ]
              ]
      ]
    ]

collect-WellFormed :
    (f : Flow) (a : ℕ) (r : Request) (s : State)
    → WellFormed f
    → Located f a r
    → WellFormed (collect f r s).0
unfolding collect
collect-WellFormed f a r pending w l = w
collect-WellFormed f a r approved w l = remove-WellFormed f a r l w
collect-WellFormed f a r denied w l = remove-WellFormed f a r l w

poll_request-WellFormed :
    (f : Flow) (now a : ℕ) (r : Request)
    → WellFormed f
    → Located f a r
    → WellFormed (poll_request f now a r).0
unfolding poll_request
poll_request-WellFormed f now a r w l =
    let r' : Request = record r { last_poll = now } in
    let polled : Flow = record f { requests = write f.requests a r' } in
    let kept : WellFormed polled = write-WellFormed f a r r' l.0 refl refl w in
    let here : Located polled a r' = (ground arith, l.1, l.2) in
    ground
      (arith, remove-WellFormed f a r l w, kept, collect-WellFormed polled a r' r'.state kept here)

pub poll-WellFormed :
    (f : Flow) (now : ℕ) (code : Str) → WellFormed f → WellFormed (poll f now code).0
unfolding poll
poll-WellFormed f now code w = elim (Option-cases (find f f.by_device code)) [
  | inl m ↦ rw (m, poll) w
  | inr ((a, r), m) ↦
      rw (m, poll)
        (poll_request-WellFormed f now a r w (find_device-Located f w.coherent code a r m).0)
]

pending_of : (s : State) → is_pending s ≡ true → s ≡ pending
unfolding is_pending
pending_of pending e = refl
pending_of approved e = cc
pending_of denied e = cc

-- What `decidable` hands on: the flow as it was, and a pending request that has not expired.
abbrev pub IsDecidable : Flow → Flow → ℕ → ℕ → Request → Type 0
IsDecidable f f' now a r =
    (f' ≡ f) × Located f a r × (r.state ≡ pending) × (ltb now r.expires ≡ true)

pub decidable-IsDecidable :
    (u : Unicode) (f f' : Flow) (now : ℕ) (code : Str) (a : ℕ) (r : Request)
    → Coherent f
    → decidable u f now code ≡ (f', ok (a, r))
    → IsDecidable f f' now a r × (r.user_code ≡ normalize u code)
unfolding decidable
decidable-IsDecidable u f f' now code a r c e =
    elim (Option-cases (find f f.by_user (normalize u code))) [
      | inl m ↦ absurd (ground arith)
      | inr ((b, s), m) ↦ elim (Bool-cases (ltb now s.expires)) [
        | inr old ↦ absurd (ground arith)
        | inl live ↦ elim (Bool-cases (is_pending s.state)) [
          | inr other ↦ absurd (ground arith)
          | inl open_still ↦
              let (l, named) = find_user-Located f c (normalize u code) b s m in
              let same : s ≡ r = ground arith in
              let address : b ≡ a = ground arith in
              subst (λ (q : Request). IsDecidable f f' now a q × (q.user_code ≡ normalize u code))
                same
                (
                  (
                    ground arith,
                    subst (λ (n : ℕ). Located f n s) address l,
                    pending_of s.state open_still,
                    live,
                  ),
                  named,
                )
        ]
      ]
    ]

decidable-WellFormed :
    (u : Unicode) (f : Flow) (now : ℕ) (code : Str)
    → WellFormed f
    → WellFormed (decidable u f now code).0
unfolding decidable
decidable-WellFormed u f now code w = elim (Option-cases (find f f.by_user (normalize u code))) [
  | inl m ↦ rw (m, decidable) w
  | inr ((a, r), m) ↦
      let gone =
        remove-WellFormed f a r (find_user-Located f w.coherent (normalize u code) a r m).0 w in
      ground (arith, gone)
]

pub deny-WellFormed :
    (u : Unicode) (f : Flow) (now : ℕ) (code : Str)
    → WellFormed f
    → WellFormed (deny u f now code).0
unfolding deny
deny-WellFormed u f now code w =
    let g : Flow = (decidable u f now code).0 in
    let wg : WellFormed g = decidable-WellFormed u f now code w in
    elim (Result-cases (decidable u f now code).1) [
      | inr (problem, e) ↦ subst WellFormed (ground arith) wg
      | inl ((a, r), e) ↦
          let (same, l, open_still, live) =
            (decidable-IsDecidable u f g now code a r w.coherent (ground arith)).0 in
          subst WellFormed (ground arith)
            (write-WellFormed g a r (record r { state = denied }) (rw same l.0) refl refl wg)
    ]

module _ (T : Tokens) where
  open T use {Store}

  settle-WellFormed :
      (f : Flow) (a : ℕ) (r : Request) (by : Principal) (granted : List Str)
      (minted : Result Error (Str × Str))
      → WellFormed f
      → f.requests a ≡ some r
      → WellFormed (settle T f a r by granted minted).0
  unfolding settle
  settle-WellFormed f a r by granted (err e) w at = w
  settle-WellFormed f a r by granted (ok (raw, used)) w at = write-WellFormed f a r _ at refl refl w

  approve_request-WellFormed :
      (f : Flow) (s : Store) (a : ℕ) (r : Request) (by : Principal) (given : Str)
      (projects : List Str)
      → WellFormed f
      → f.requests a ≡ some r
      → WellFormed (approve_request T f s a r by given projects).0
  unfolding approve_request
  approve_request-WellFormed f s a r by given projects w at =
      elim (Result-cases (grantable by projects)) [
        | inr (problem, e) ↦ rw (e, approve_request) w
        | inl (granted, e) ↦ rw (e, approve_request) (settle-WellFormed f a r by granted _ w at)
      ]

  pub approve-WellFormed :
      (u : Unicode) (f : Flow) (s : Store) (now : ℕ) (code : Str) (by : Principal) (given : Str)
      (projects : List Str)
      → WellFormed f
      → WellFormed (approve T u f s now code by given projects).0
  unfolding approve
  approve-WellFormed u f s now code by given projects w =
      let g : Flow = (decidable u f now code).0 in
      let wg : WellFormed g = decidable-WellFormed u f now code w in
      elim (Result-cases (decidable u f now code).1) [
        | inr (problem, e) ↦ subst WellFormed (ground arith) wg
        | inl ((a, r), e) ↦
            let (same, l, open_still, live) =
              (decidable-IsDecidable u f g now code a r w.coherent (ground arith)).0 in
            subst WellFormed (ground arith)
              (approve_request-WellFormed g s a r by given projects wg (rw same l.0))
      ]
