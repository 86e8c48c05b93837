-- ===== src/Device/Flow.antt =====
-- The state of mind-palace/server/device/device.go and its calls `New`, `Start`, `Poll`, `Deny`
-- and `Pending`. The two maps of a `Flow` share their requests, so a request has an address: its
-- `seq`. The clock's reading is an argument of each call.
use clued.Base.{
  ℕ, ◌+◌, ◌*◌, ◌/◌, Bool, true, false, not, ◌&&◌, Option, none, some, List, [], ◌∷◌, map, Str,
  bytes, is_empty, lookup, insert, delete, length, take, trim_space, leb, ltb, ◌==◌, if◌then◌else◌,
  Result, ok, err,
}
use clued.Auth.Token.{second}
use clued.Device.Codes.{Unicode, normalize, format, draw_user_code}

abbrev pub default_ttl : ℕ
default_ttl = 15 * 60 * second

abbrev pub default_interval : ℕ
default_interval = 5 * second

abbrev pub max_pending : ℕ
max_pending = 100

abbrev pub default_client_name : Str
default_client_name = bytes "clued client"

abbrev pub max_client_name : ℕ
max_client_name = 80

-- The sentinel errors, and the failures of the generator and of the token file.
pub data Error : Type 0 where
  pending_authorization slow_down access_denied expired_token invalid_grant : Error
  too_many no_request decided project : Error
  random_failed token_exists token_failed : Error

pub record Start : Type 0 where
  pub device_code : Str
  pub user_code : Str
  pub expires_in : ℕ
  pub interval : ℕ

-- `TokenID` and `Name` are one value.
pub record Link : Type 0 where
  pub token : Str
  pub name : Str
  pub account_id : Str

abbrev pub no_link : Link
no_link = record { token = []; name = []; account_id = [] }

pub data State : Type 0 where
  pending approved denied : State

pub record Request : Type 0 where
  pub device_code : Str
  pub user_code : Str
  pub client_name : Str
  pub info : List (Str × Str)
  pub created : ℕ
  pub expires : ℕ
  -- 0 is the zero time: never polled
  pub last_poll : ℕ
  pub state : State
  pub link : Link
  pub seq : ℕ

pub record Flow : Type 0 where
  pub ttl : ℕ
  pub interval : ℕ
  pub requests : ℕ → Option Request
  pub by_device : List (Str × ℕ)
  pub by_user : List (Str × ℕ)
  pub started : ℕ

-- `New`; a duration that is not positive is 0.
unfoldable pub new_flow : ℕ → ℕ → Flow
new_flow ttl interval = record {
  ttl = if ttl == 0 then default_ttl else ttl;
  interval = if interval == 0 then default_interval else interval;
  requests = λ a. none;
  by_device = [];
  by_user = [];
  started = 0;
}

-- A write to the request at an address.
abbrev pub write : (ℕ → Option Request) → ℕ → Request → ℕ → Option Request
write requests a r b = if a == b then some r else requests b

-- The request that a map holds for a code, with its address.
unfoldable pub find : Flow → List (Str × ℕ) → Str → Option (ℕ × Request)
find f codes code = elim (lookup code codes) [
  | none ↦ none
  | some a ↦ elim (f.requests a) [ none ↦ none | some r ↦ some (a, r) ]
]

unfoldable pub remove : Flow → Request → Flow
remove f r = record f {
  by_device = delete r.device_code f.by_device;
  by_user = delete r.user_code f.by_user;
}

-- One round of `prune`: a code that is still in `byDevice`.
unfoldable pub prune_code : ℕ → Str → Flow → Flow
unfolding find remove
prune_code now code f = elim (find f f.by_device code) [
  | none ↦ f
  | some (a, r) ↦ if ltb now r.expires then f else remove f r
]

-- The loop of `prune` over the entries of `byDevice`.
unfoldable pub prune_from : ℕ → List (Str × ℕ) → Flow → Flow
unfolding prune_code
prune_from now [] f = f
prune_from now ((code, a) ∷ entries) f = prune_from now entries (prune_code now code f)

unfoldable pub prune : ℕ → Flow → Flow
unfolding prune_from
prune now f = prune_from now f.by_device f

unfoldable pub client_name_of : Str → Str
client_name_of given =
    let trimmed = trim_space given in
    take max_client_name (if is_empty trimmed then default_client_name else trimmed)

unfoldable pub is_taken : List (Str × ℕ) → Str → Bool
is_taken codes code = elim (lookup code codes) [ none ↦ false | some a ↦ true ]

-- `Start` behind the draws: registers the request.
unfoldable pub register : Flow → ℕ → Str → Str → Str → List (Str × Str) → Flow × Start
register f now device_code user_code client_name info =
    let seq = f.started + 1 in
    (
      record f {
        requests = write f.requests seq (record {
          device_code = device_code;
          user_code = user_code;
          client_name = client_name;
          info = info;
          created = now;
          expires = now + f.ttl;
          last_poll = 0;
          state = pending;
          link = no_link;
          seq = seq;
        });
        by_device = insert device_code seq f.by_device;
        by_user = insert user_code seq f.by_user;
        started = seq;
      },
      record {
        device_code = device_code;
        user_code = format user_code;
        expires_in = f.ttl / second;
        interval = if leb (f.interval / second) 1 then 1 else f.interval / second;
      },
    )

-- The random draws of a `Start`: the device code (32 random bytes in base64), and for each round
-- of the loop the draws of a user code. `fuel` bounds the rounds.
pub record Draws : Type 0 where
  pub fuel : ℕ
  pub device_code : Option Str
  pub user_codes : ℕ → ℕ → Option ℕ

-- `Start`; `none` says that the fuel ran out.
unfoldable pub start :
    Flow → ℕ → Draws → Str → List (Str × Str) → Option (Flow × Result Error Start)
unfolding client_name_of prune register
start f now draws client info =
    let f' = prune now f in
    if leb max_pending (length f'.by_device)
    then some (f', err too_many)
    else elim draws.device_code [
      | none ↦ some (f', err random_failed)
      | some device_code ↦
          elim (draw_user_code draws.fuel 0 draws.user_codes (is_taken f'.by_user)) [
            | none ↦ none
            | some none ↦ some (f', err random_failed)
            | some (some user_code) ↦
                let (f'', s) = register f' now device_code user_code (client_name_of client) info in
                some (f'', ok s)
          ]
    ]

-- `Poll` behind the test for polling too fast, by the request's state.
unfoldable pub collect : Flow → Request → State → Flow × Result Error Link
unfolding remove
collect f r denied = (remove f r, err access_denied)
collect f r approved = (remove f r, ok r.link)
collect f r pending = (f, err pending_authorization)

unfoldable pub too_fast : Flow → ℕ → Request → Bool
too_fast f now r = not (r.last_poll == 0) && ltb now (r.last_poll + f.interval / 2)

unfoldable pub poll_request : Flow → ℕ → ℕ → Request → Flow × Result Error Link
unfolding collect remove
poll_request f now a r =
    let r' = record r { last_poll = now } in
    let polled = record f { requests = write f.requests a r' } in
    if not (ltb now r.expires)
    then (remove f r, err expired_token)
    else if too_fast f now r
    then (polled, err slow_down)
    else collect polled r' r'.state

unfoldable pub poll : Flow → ℕ → Str → Flow × Result Error Link
unfolding find poll_request
poll f now code = elim (find f f.by_device code) [
  | none ↦ (f, err invalid_grant)
  | some (a, r) ↦ poll_request f now a r
]

unfoldable pub is_pending : State → Bool
is_pending pending = true
is_pending _ = false

unfoldable pub decidable : Unicode → Flow → ℕ → Str → Flow × Result Error (ℕ × Request)
unfolding find remove is_pending
decidable u f now code = elim (find f f.by_user (normalize u code)) [
  | none ↦ (f, err no_request)
  | some (a, r) ↦
      if not (ltb now r.expires)
      then (remove f r, err expired_token)
      else if is_pending r.state
      then (f, ok (a, r))
      else (f, err decided)
]

unfoldable pub deny : Unicode → Flow → ℕ → Str → Flow × Result Error (Unit {0})
unfolding decidable
deny u f now code =
    let (f', found) = decidable u f now code in
    elim found [
      | err e ↦ (f', err e)
      | ok (a, r) ↦
          (record f' { requests = write f'.requests a (record r { state = denied }) }, ok tt)
    ]

-- What `Pending` shows of a request.
pub record Shown : Type 0 where
  pub user_code : Str
  pub client_name : Str
  pub info : List (Str × Str)
  pub created : ℕ
  pub expires : ℕ
  pub state : State

-- The order of `Pending`: by creation, then by `seq`.
unfoldable pub older : Request → Request → Bool
older r s = if r.created == s.created then ltb r.seq s.seq else ltb r.created s.created

unfoldable pub insert_request : Request → List Request → List Request
insert_request r [] = r ∷ []
insert_request r (s ∷ rs) = if older r s then r ∷ s ∷ rs else s ∷ insert_request r rs

-- `sort.Slice` by that order.
unfoldable pub sort_requests : List Request → List Request
unfolding insert_request
sort_requests [] = []
sort_requests (r ∷ rs) = insert_request r (sort_requests rs)

unfoldable pub held : Flow → List (Str × ℕ) → List Request
held f [] = []
held f ((code, a) ∷ entries) = elim (f.requests a) [
  | none ↦ held f entries
  | some r ↦ r ∷ held f entries
]

unfoldable pub show : Request → Shown
show r = record {
  user_code = format r.user_code;
  client_name = r.client_name;
  info = r.info;
  created = r.created;
  expires = r.expires;
  state = r.state;
}

unfoldable pub list_pending : Flow → ℕ → Flow × List Shown
unfolding prune held sort_requests show
list_pending f now = let f' = prune now f in (f', map show (sort_requests (held f' f'.by_device)))
