-- ===== src/Device/Tokens.antt =====
-- The interface `Tokens` of mind-palace/server/device/device.go, with what the flow relies on.
use clued.Base.{◌≡◌, false, List, [], Str, is_empty, trim_space, Result, ok}
use clued.Auth.Token.{Principal}
use clued.Auth.Projects.{clean_projects}

-- `errors.Is(err, auth.ErrTokenExists)`, or not.
pub data CreateError : Type 0 where
  exists failed : CreateError

pub record Tokens : Type 1 where
  -- what the calls read and write
  pub Store : Type 0
  pub create : Store → Str → Str → List Str → Store × Result CreateError Str
  pub revoke : Store → Str → Store × Result CreateError (Unit {0})
  -- the raw token authenticates as the principal
  pub Grants : Store → Str → Principal → Type 0
  pub create_Grants :
      (s s' : Store) (name account_id raw : Str) (projects : List Str)
      → create s name account_id projects ≡ (s', ok raw)
      → is_empty account_id ≡ false
      → Grants s' raw (record {
        name = trim_space name;
        account_id = account_id;
        projects = clean_projects [] projects;
      })
