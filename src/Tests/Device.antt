-- ===== src/Tests/Device.antt =====
-- Concrete runs of mind-palace/server/device/device.go.
use clued.Base.{
  ℕ, ◌+◌, ◌*◌, ◌≡◌, refl, not, ◌||◌, true, false, Option, none, some, List, [], ◌∷◌, map, arith,
  Str, bytes, Result, ok, err, lookup, insert, any, str_eq, trim_space, length, ltb, subst,
}
use mathlib.Core.Option.{some-injective}
use clued.Auth.Token.{Principal, second, hour}
use clued.Auth.Projects.{allow_project, clean_projects}
use clued.Auth.Load.{Env, file, written, load, save}
use clued.Auth.File.{create}
use clued.Device.Codes.{
  Unicode, upper_char, is_alnum, normalize, format, random_user_code, draw_user_code,
}
use clued.Device.Tokens.{Tokens}
use clued.Device.TokenStore.{Store, file_tokens, create_token}
use clued.Device.Flow.{
  Flow, Request, Link, pending, approved, Error, decided, invalid_grant, Draws, find, prune,
  register, poll, too_fast, decidable, deny, new_flow,
}
use clued.Device.Grantable.{grantable}
use clued.Device.Approval.{Approval, approve}
use clued.Device.Invariant.{Located, new_flow-Coherent}
use clued.Device.Calls.{WellFormed, approve-WellFormed, register-WellFormed}
use clued.Device.Answers.{poll-answer, answer, stays, polled_lately}
use clued.Device.Handover.{
  poll-approve, principal_for, settled, linked, approve-allow_project, approve-decided,
}
use clued.Device.History.{Call, starts, polls, run, run-WellFormed, poll-ok}
use clued.Device.Spelling.{
  normalize-format, normalize-Typed, same, lowered, hyphen, done, draw_user_code_ends,
}

-- The Unicode tables of a system that knows ASCII alone.
abbrev ascii : Unicode
ascii = record {
  upper = map upper_char;
  runes = λ s. s;
  letter_or_digit = is_alnum;
  encode = λ c. c ∷ [];
  upper_ascii = λ s a. refl;
  runes_ascii = λ s a. refl;
  letter_or_digit_ascii = λ c h. refl;
  encode_ascii = λ c h. refl;
}

abbrev hash : Str → Str
hash raw = b'#' ∷ raw

abbrev env : Env
env = record {
  now = hour;
  disk = file 1 2 none;
  saved = written (some (1, 2));
  raw = some (bytes "secret");
  account_id = none;
  suffix = λ i. none;
}

abbrev T : Tokens
T = file_tokens hash (λ n. env)

abbrev store : Store
store = record {
  file = record {
    loaded = true;
    mtime = 1;
    size = 2;
    tokens = [];
    failed_load = false;
    exchanges = [];
  };
  calls = 0;
}

abbrev ann : Principal
ann = record { name = bytes "ann"; account_id = bytes "acme"; projects = bytes "web" ∷ [] }

-- One client waits for the approval of its request.
abbrev waiting : Flow
waiting = (register (new_flow 0 0) hour (bytes "dev") (bytes "BCDFGHJK") (bytes "laptop") []).0

abbrev request : Request
request = record {
  device_code = bytes "dev";
  user_code = bytes "BCDFGHJK";
  client_name = bytes "laptop";
  info = [];
  created = hour;
  expires = hour + 15 * 60 * second;
  last_poll = 0;
  state = pending;
  link = record { token = []; name = []; account_id = [] };
  seq = 1;
}

waiting-WellFormed : WellFormed waiting
unfolding new_flow lookup
waiting-WellFormed =
    register-WellFormed (new_flow 0 0) hour (bytes "dev") (bytes "BCDFGHJK") (bytes "laptop") []
      (record { coherent = new_flow-Coherent 0 0; bounded = omega arith }) (omega arith) refl refl

waiting-Located : Located waiting 1 request
unfolding register new_flow lookup insert str_eq
waiting-Located = (refl, refl, refl)

abbrev approval : Flow × Store × Result Error Approval
approval = approve T ascii waiting store hour (bytes "bcdf-ghjk") ann (bytes "box") []

abbrev told : Approval
told = record {
  user_code = bytes "BCDF-GHJK";
  name = bytes "box";
  account_id = bytes "acme";
  projects = bytes "web" ∷ [];
}

approval_ok : approval ≡ (approval.0, approval.1, ok told)
unfolding approve decidable find normalize register new_flow lookup insert str_eq trim_space
    create_token create load save any format grantable
approval_ok = refl

approval-WellFormed : WellFormed approval.0
approval-WellFormed =
    approve-WellFormed T ascii waiting store hour (bytes "bcdf-ghjk") ann (bytes "box") []
      waiting-WellFormed

poll-approve_example :
    (raw : Str) × ((poll approval.0 (hour + 10 * second) (bytes "dev")).1
      ≡ ok (record { token = raw; name = bytes "box"; account_id = bytes "acme" }))
    × T.Grants approval.1 raw (principal_for T (bytes "box") (bytes "acme") (bytes "web" ∷ []))
    × ((poll (poll approval.0 (hour + 10 * second) (bytes "dev")).0 (2 * hour) (bytes "dev")).1
        ≡ err invalid_grant)
unfolding normalize polled_lately
poll-approve_example =
    poll-approve T ascii waiting store hour (hour + 10 * second) (2 * hour) 1 request
      (bytes "bcdf-ghjk") ann (bytes "box") [] approval.0 approval.1 told
      waiting-WellFormed.coherent waiting-Located refl refl approval_ok (omega arith) refl

approve-allow_project_example :
    (raw : Str) × (approval.0 ≡ settled waiting 1 (linked T raw ann told request))
    × T.Grants approval.1 raw (principal_for T (bytes "box") (bytes "acme") (bytes "web" ∷ []))
    × ((not (
            allow_project
              (principal_for T (bytes "box") (bytes "acme") (bytes "web" ∷ []))
              (bytes "web"))
          || allow_project ann (bytes "web"))
        ≡ true)
unfolding normalize clean_projects clued.Auth.Projects.add_project trim_space clued.Base.contains
approve-allow_project_example =
    approve-allow_project T ascii waiting store hour 1 request (bytes "bcdf-ghjk") ann (bytes "box")
      [] approval.0 approval.1 told (bytes "web") waiting-WellFormed.coherent waiting-Located refl
      refl refl approval_ok

approve-decided_example :
    (approve T ascii approval.0 approval.1 (hour + 1) (bytes "BCDFGHJK") ann [] []
      ≡ (approval.0, approval.1, err decided))
    × (deny ascii approval.0 (hour + 1) (bytes "BCDFGHJK") ≡ (approval.0, err decided))
unfolding normalize
approve-decided_example =
    approve-decided T ascii waiting store hour (hour + 1) 1 request (bytes "bcdf-ghjk")
      (bytes "BCDFGHJK") ann ann (bytes "box") [] [] [] approval.0 approval.1 told
      waiting-WellFormed.coherent waiting-Located refl refl approval_ok (omega arith)

poll-answer_example :
    ((poll waiting (hour + 1) (bytes "dev")).1 ≡ answer waiting (hour + 1) request)
    × (find
          (poll waiting (hour + 1) (bytes "dev")).0
          (poll waiting (hour + 1) (bytes "dev")).0.by_device
          (bytes "dev")
        ≡ some (1, record request { last_poll = hour + 1 }))
unfolding stays polled_lately
poll-answer_example = poll-answer waiting (hour + 1) 1 request waiting-Located

abbrev draws : Draws
draws = record { fuel = 3; device_code = some (bytes "dev"); user_codes = λ k i. some (k + i) }

abbrev calls : List Call
calls = starts hour draws (bytes " laptop ") [] ∷ polls (hour + second) (bytes "dev") ∷ []

run-WellFormed_example : WellFormed (run T ascii (new_flow 0 0, store) calls).0
unfolding prune new_flow lookup
run-WellFormed_example = run-WellFormed T ascii 0 0 store calls ((λ code e. refl), (tt, tt))

normalize-format_example :
    (normalize ascii (format (bytes "BCDFGHJK")) ≡ bytes "BCDFGHJK")
    × (length (bytes "BCDFGHJK") ≡ 8)
unfolding random_user_code
normalize-format_example = normalize-format ascii (λ i. some i) (bytes "BCDFGHJK") refl

normalize-Typed_example : normalize ascii (bytes "b-7") ≡ bytes "B7"
normalize-Typed_example =
    normalize-Typed ascii (bytes "B7") (bytes "b-7") (lowered b'B' (hyphen (same b'7' done)))
      (refl, (refl, tt))

second_free :
    (code : Str)
    → random_user_code (λ i. some (1 + i)) ≡ some code
    → str_eq (bytes "BCDFGHJK") code ≡ false
unfolding random_user_code str_eq
second_free code e = subst (λ c. str_eq (bytes "BCDFGHJK") c ≡ false) (some-injective _ _ e) refl

draw_user_code_ends_example :
    (drawn : Option Str) × (draw_user_code 3 0 (λ k i. some (k + i)) (str_eq (bytes "BCDFGHJK"))
      ≡ some drawn)
unfolding random_user_code str_eq
draw_user_code_ends_example =
    draw_user_code_ends 3 0 1 (λ k i. some (k + i)) (str_eq (bytes "BCDFGHJK")) (omega arith)
      (omega arith) second_free

-- The client collects its token.
abbrev collected : Flow × Result Error Link
collected = poll approval.0 (hour + second) (bytes "dev")

abbrev handed : Link
handed = record { token = bytes "secret"; name = bytes "box"; account_id = bytes "acme" }

poll-ok_example :
    (a : ℕ) × (r : Request) × Located approval.0 a r
    × (r.device_code ≡ bytes "dev")
    × (r.state ≡ approved)
    × (r.link ≡ handed)
    × (ltb (hour + second) r.expires ≡ true)
    × (find collected.0 collected.0.by_device (bytes "dev") ≡ none)
unfolding poll approve decidable find normalize register new_flow lookup insert str_eq trim_space
    create_token create load save any grantable too_fast
poll-ok_example =
    poll-ok approval.0 collected.0 (hour + second) (bytes "dev") handed approval-WellFormed.coherent
      refl
