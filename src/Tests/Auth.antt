-- ===== src/Tests/Auth.antt =====
-- Concrete runs of mind-palace/server/auth/auth.go.
use mathlib.Core.List.{Memᴰ}
use clued.Base.{
  ℕ, ◌+◌, ◌*◌, ◌≡◌, refl, true, false, none, some, List, [], ◌∷◌, arith, Str, bytes, Result, lookup,
  insert, keep, any, str_eq, trim_space, length, All, ◌≤◌,
}
use clued.Auth.Token.{Token, Error, kind_environment, hour, expired, truncate_second}
use clued.Auth.Projects.{clean_projects}
use clued.Auth.Load.{Env, TokenFile, file, written, load, save}
use clued.Auth.File.{
  create, append_token, account_or_new, lookup_token, match_raw, revoke, index, is_key_at, is_none,
}
use clued.Auth.Keys.{
  Exchanged, exchange, name_taken, key_ttl, exchanged_name, hex, client_label, prune, label_char,
}
use clued.Auth.Lookups.{Answers, IsBacked, lookup_token-IsBacked}
use clued.Auth.Minting.{lookup_token-create, lookup_token-exchange}
use clued.Auth.Names.{exchanges, UniqueNames, after_call, after_call-UniqueNames}
use clued.Auth.Revocation.{lookup_token-revoke, revoke-IsOrphaned, IsOrphaned}
use clued.Auth.RateLimit.{
  run_requests, run_requests-sliding, run_requests-recent, sliding, is_recent,
}

abbrev hash : Str → Str
hash raw = b'#' ∷ raw

-- An environment key and a token that was exchanged for it.
abbrev key : Token
key = record {
  name = bytes "ci";
  hash = hash (bytes "k");
  account_id = bytes "acme";
  projects = bytes "web" ∷ [];
  created = 0;
  revoked = none;
  kind = kind_environment;
  token_ttl = 2 * hour;
  parent = [];
  expires = none;
}

abbrev traded : Token
traded = record {
  name = bytes "ci@box";
  hash = hash (bytes "t");
  account_id = bytes "acme";
  projects = bytes "web" ∷ [];
  created = 0;
  revoked = none;
  kind = [];
  token_ttl = 0;
  parent = bytes "ci";
  expires = some (9 * hour);
}

abbrev person : Token
person = record {
  name = bytes "ann";
  hash = hash (bytes "a");
  account_id = bytes "acme";
  projects = bytes "*" ∷ [];
  created = 0;
  revoked = none;
  kind = [];
  token_ttl = 0;
  parent = [];
  expires = none;
}

abbrev tokens : TokenFile
tokens = record {
  loaded = true;
  mtime = 1;
  size = 2;
  tokens = key ∷ traded ∷ person ∷ [];
  failed_load = false;
  exchanges = [];
}

abbrev env : Env
env = record {
  now = 5 * hour;
  disk = file 1 2 none;
  saved = written (some (3, 4));
  raw = some (bytes "r");
  account_id = none;
  suffix = λ i. some (0xab ∷ 0xcd ∷ 0 ∷ 1 ∷ []);
}

-- The next call finds the file that was written.
abbrev later : Env
later = record env { disk = file 3 4 none; now = 6 * hour }

abbrev created : TokenFile
created = (create hash env tokens (bytes " box ") (bytes "acme") (bytes "app" ∷ [])).0

lookup_token-create_example :
    (account : Str) × (account_or_new env (bytes "acme") ≡ some account)
    × (lookup_token hash later created (bytes "r") ≡ (
      created,
      some (record {
        name = trim_space (bytes " box ");
        account_id = account;
        projects = clean_projects [] (bytes "app" ∷ []);
      }),
    ))
unfolding create load save any str_eq trim_space
lookup_token-create_example =
    lookup_token-create hash env later tokens created (bytes " box ") (bytes "acme") (bytes "r")
      (bytes "app" ∷ []) refl refl refl

lookup_token-IsBacked_example :
    IsBacked hash
      (5 * hour)
      (bytes "a")
      (lookup_token hash env tokens (bytes "a")).0.tokens
      (record { name = bytes "ann"; account_id = bytes "acme"; projects = bytes "*" ∷ [] })
unfolding lookup_token load str_eq expired is_none
lookup_token-IsBacked_example =
    lookup_token-IsBacked hash env tokens (bytes "a")
      (record { name = bytes "ann"; account_id = bytes "acme"; projects = bytes "*" ∷ [] }) refl

after_call-UniqueNames_example :
    UniqueNames (after_call hash env tokens (exchanges (bytes "k") (bytes "box"))).tokens
unfolding name_taken any str_eq load
after_call-UniqueNames_example =
    after_call-UniqueNames hash env tokens (exchanges (bytes "k") (bytes "box"))
      (refl, (refl, (refl, tt))) (refl, (refl, (refl, tt)))

abbrev revoked : TokenFile
revoked = (revoke env tokens (bytes "ci")).0

lookup_token-revoke_example : ¬ (bytes "ann" ≡ bytes "ci")
unfolding lookup_token load str_eq expired is_none revoke save index name_taken any is_key_at
lookup_token-revoke_example =
    lookup_token-revoke hash env later tokens revoked (bytes "ci") (bytes "a")
      (record { name = bytes "ann"; account_id = bytes "acme"; projects = bytes "*" ∷ [] })
      (refl, (refl, (refl, tt))) refl refl refl

revoke-IsOrphaned_example : All (IsOrphaned (bytes "ci")) revoked.tokens
unfolding load str_eq is_none revoke save index is_key_at
revoke-IsOrphaned_example = revoke-IsOrphaned env tokens revoked (bytes "ci") 0 refl refl refl

abbrev requests : List ℕ
requests = hour ∷ (hour + 5) ∷ (3 * hour) ∷ []

run_requests-sliding_example : (run_requests (bytes "ci") tokens requests).1 ≡ sliding [] requests
unfolding lookup
run_requests-sliding_example = run_requests-sliding (bytes "ci") tokens requests refl (omega arith)

run_requests-recent_example :
    length (keep (is_recent (3 * hour)) (run_requests (bytes "ci") tokens requests).1) ≤ 60
unfolding lookup
run_requests-recent_example =
    run_requests-recent (bytes "ci") tokens requests (3 * hour) refl (omega arith) (omega arith)

abbrev exchanged : TokenFile × Result Error Exchanged
exchanged = exchange hash env tokens (bytes "k") (bytes "box")

lookup_token-exchange_example :
    (k : Token) × Memᴰ k (load env.disk tokens).0.tokens
    × Answers (hash (bytes "k")) k
    × (str_eq k.kind kind_environment ≡ true)
    × (7 * hour ≡ truncate_second (5 * hour + key_ttl k.token_ttl))
    × (account : Str) × (account_or_new env k.account_id ≡ some account)
    × (lookup_token hash later exchanged.0 (bytes "r") ≡ (
      exchanged.0,
      some (record {
        name = trim_space (bytes "ci@box-abcd0001");
        account_id = account;
        projects = clean_projects [] k.projects;
      }),
    ))
unfolding exchange load str_eq is_none any save trim_space lookup insert keep exchanged_name hex
    client_label truncate_second prune match_raw name_taken label_char append_token
lookup_token-exchange_example =
    lookup_token-exchange hash env later tokens exchanged.0 (bytes "k") (bytes "box")
      (record {
        token = bytes "r";
        name = bytes "ci@box-abcd0001";
        account_id = bytes "acme";
        expires_at = 7 * hour;
      })
      refl refl refl
