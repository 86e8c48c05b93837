-- ===== src/Auth/Token.antt =====
-- The records of mind-palace/server/auth/auth.go, and what its calls take from outside.
-- A time is its nanoseconds since Go's zero time, a duration its nanoseconds.
use clued.Base.{ℕ, ◌*◌, ◌/◌, Bool, false, Option, none, some, List, Str, bytes, leb}

-- Who a request acts as.
pub record Principal : Type 0 where
  pub name : Str
  pub account_id : Str
  pub projects : List Str

-- One entry of the token file. A negative `token_ttl`, which the code treats as 0, is 0.
pub record Token : Type 0 where
  pub name : Str
  pub hash : Str
  pub account_id : Str
  pub projects : List Str
  pub created : ℕ
  pub revoked : Option ℕ
  pub kind : Str
  pub token_ttl : ℕ
  pub parent : Str
  pub expires : Option ℕ

abbrev pub kind_environment : Str
kind_environment = bytes "environment"

abbrev pub second : ℕ
second = 1_000_000_000

abbrev pub hour : ℕ
hour = 3600 * second

abbrev pub default_token_ttl : ℕ
default_token_ttl = 24 * hour

abbrev pub min_token_ttl : ℕ
min_token_ttl = hour

abbrev pub max_token_ttl : ℕ
max_token_ttl = 7 * 24 * hour

abbrev pub exchanges_per_hour : ℕ
exchanges_per_hour = 60

abbrev pub prune_after : ℕ
prune_after = 24 * hour

-- `t.Truncate(time.Second)`.
unfoldable pub truncate_second : ℕ → ℕ
truncate_second t = t / second * second

-- `Token.Expired`: not before its end.
unfoldable pub expired : ℕ → Token → Bool
expired now t = elim t.expires [ none ↦ false | some e ↦ leb e now ]

pub data Error : Type 0 where
  load_failed save_failed random_failed : Error
  name_required token_exists : Error
  no_such_token token_revoked : Error
  bad_lifetime invalid_key rate_limited no_free_name : Error
