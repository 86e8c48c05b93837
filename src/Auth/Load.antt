-- ===== src/Auth/Load.antt =====
-- Reading and writing the token file: `load` and `save` of mind-palace/server/auth/auth.go.
-- The file system answers from outside: what `os.Stat`, `os.ReadFile` and the JSON decoder give,
-- and whether the atomic replacement succeeded.
use clued.Base.{
  ℕ, Bool, true, false, not, ◌&&◌, Option, none, some, List, [], Str, ◌==◌, if◌then◌else◌,
}
use clued.Auth.Token.{Token}

-- What is at the file's path. `read` is `none` if the read fails; the body is `none` if it does
-- not parse, and an empty file parses to no tokens.
pub data Disk : Type 0 where
  missing : Disk
  stat_failed : Disk
  file : (mtime size : ℕ) → (read : Option (Option (List Token))) → Disk

-- What the steps of `save` give: a failure, or success with the stat that follows.
pub data Saved : Type 0 where
  failed : Saved
  written : Option (ℕ × ℕ) → Saved

-- The state of `TokenFile`; `failed_load` is `f.err != nil`.
pub record TokenFile : Type 0 where
  pub loaded : Bool
  pub mtime : ℕ
  pub size : ℕ
  pub tokens : List Token
  pub failed_load : Bool
  pub exchanges : List (Str × List ℕ)

pub open_token_file : TokenFile
open_token_file = record {
  loaded = false;
  mtime = 0;
  size = 0;
  tokens = [];
  failed_load = false;
  exchanges = [];
}

-- The part of `load` behind the stat and the cache test.
load_body : TokenFile → ℕ → ℕ → Option (Option (List Token)) → TokenFile × Bool
load_body f mtime size none = (record f { failed_load = true }, false)
load_body f mtime size (some none) =
    (record f { loaded = true; mtime = mtime; size = size; tokens = []; failed_load = true }, false)
load_body f mtime size (some (some tokens)) = (
  record f { loaded = true; mtime = mtime; size = size; tokens = tokens; failed_load = false },
  true,
)

-- The new state, and whether `load` returned no error.
unfoldable pub load : Disk → TokenFile → TokenFile × Bool
unfolding load_body
load missing f =
    (record f { loaded = true; mtime = 0; size = 0; tokens = []; failed_load = false }, true)
load stat_failed f = (record f { failed_load = true }, false)
load (file mtime size read) f =
    if f.loaded && ((mtime == f.mtime) && (size == f.size))
    then (f, not f.failed_load)
    else load_body f mtime size read

-- The tokens in memory are left as they are: they were changed before the call.
unfoldable pub save : Saved → TokenFile → TokenFile × Bool
save failed f = (f, false)
save (written none) f = (record f { loaded = false }, true)
save (written (some (mtime, size))) f =
    (record f { loaded = true; mtime = mtime; size = size; failed_load = false }, true)

-- What one call takes from outside: the clock, the file system's answers, and the random draws.
-- `raw` is the base64 text of 32 random bytes, `account_id` a new random id, and `suffix i` the
-- four bytes of the draw number `i` for a name; `none` is a failure of the generator.
pub record Env : Type 0 where
  pub now : ℕ
  pub disk : Disk
  pub saved : Saved
  pub raw : Option Str
  pub account_id : Option Str
  pub suffix : ℕ → Option (List ℕ)
