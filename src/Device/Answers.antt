-- ===== src/Device/Answers.antt =====
-- What `Poll` of mind-palace/server/device/device.go answers for a request, and what it leaves of it.
use clued.Base.{
  not, ◌/◌, ◌+◌, ℕ, ◌≡◌, refl, Bool, true, ◌&&◌, none, some, arith, Str, lookup, lookup-delete_self,
  leb, ltb, if◌then◌else◌, Result, ok, err,
}
use clued.Device.Flow.{
  Flow, Request, State, Link, pending, approved, denied, Error, write, find, remove, poll,
  poll_request, collect, too_fast, is_pending, pending_authorization, slow_down, access_denied,
  expired_token, invalid_grant,
}
use clued.Device.Invariant.{Located}

pub find_device-Located_lem :
    (f : Flow) (a : ℕ) (r : Request)
    → Located f a r
    → find f f.by_device r.device_code ≡ some (a, r)
unfolding find
find_device-Located_lem f a r l = ground arith

pub find_user-Located_lem :
    (f : Flow) (a : ℕ) (r : Request) → Located f a r → find f f.by_user r.user_code ≡ some (a, r)
unfolding find
find_user-Located_lem f a r l = ground arith

-- Polled before, and less than half an interval ago.
unfoldable pub polled_lately : Flow → ℕ → Request → Bool
polled_lately f now r = ltb 0 r.last_poll && not (leb (r.last_poll + f.interval / 2) now)

-- What `Poll` answers for a request that the flow holds, in the order of its tests.
unfoldable pub answer : Flow → ℕ → Request → Result Error Link
unfolding polled_lately
answer f now r =
    if leb r.expires now
    then err expired_token
    else if polled_lately f now r
    then err slow_down
    else elim r.state [
      | pending ↦ err pending_authorization
      | approved ↦ ok r.link
      | denied ↦ err access_denied
    ]

-- Whether the flow still holds the request afterwards: unless it expired, or its outcome was
-- handed over.
unfoldable pub stays : Flow → ℕ → Request → Bool
unfolding is_pending polled_lately
stays f now r = ltb now r.expires && (if polled_lately f now r then true else is_pending r.state)

pub poll-poll_request :
    (f : Flow) (now a : ℕ) (r : Request)
    → Located f a r
    → poll f now r.device_code ≡ poll_request f now a r
unfolding poll
poll-poll_request f now a r l = rw (find_device-Located_lem f a r l, poll) refl

-- The flow still has the request, as it was last written.
pub find_written :
    (f : Flow) (a : ℕ) (r r' : Request) (code : Str)
    → lookup code f.by_device ≡ some a
    → find (record f { requests = write f.requests a r' }) f.by_device code ≡ some (a, r')
unfolding find
find_written f a r r' code e = ground arith

pub find_removed :
    (f : Flow) (r : Request) → find (remove f r) (remove f r).by_device r.device_code ≡ none
unfolding find remove
find_removed f r = ground (arith, lookup-delete_self r.device_code f.by_device)

pub poll_request-answer :
    (f : Flow) (now a : ℕ) (r : Request) (s : State)
    → Located f a r
    → r.state ≡ s
    → ((poll_request f now a r).1 ≡ answer f now r)
      × (find (poll_request f now a r).0 (poll_request f now a r).0.by_device r.device_code
          ≡ (if stays f now r then some (a, record r { last_poll = now }) else none))
unfolding poll_request collect answer stays too_fast polled_lately
poll_request-answer f now a r s l e =
    let r' : Request = record r { last_poll = now } in
    let polled : Flow = record f { requests = write f.requests a r' } in
    (
      ground arith,
      ground (
        arith,
        find_written f a r r' r.device_code l.1,
        find_removed f r,
        find_removed polled r',
      ),
    )

-- `Poll` in full, for a request that the flow holds: the answer, and whether the request is
-- forgotten or its last poll is noted.
pub poll-answer :
    (f : Flow) (now a : ℕ) (r : Request)
    → Located f a r
    → ((poll f now r.device_code).1 ≡ answer f now r)
      × (find (poll f now r.device_code).0 (poll f now r.device_code).0.by_device r.device_code
          ≡ (if stays f now r then some (a, record r { last_poll = now }) else none))
poll-answer f now a r l =
    rw (poll-poll_request f now a r l) (poll_request-answer f now a r r.state l refl)

-- A code that the flow does not hold.
pub poll_unknown :
    (f : Flow) (now : ℕ) (code : Str)
    → find f f.by_device code ≡ none
    → poll f now code ≡ (f, err invalid_grant)
unfolding poll
poll_unknown f now code e = rw (e, poll) refl
