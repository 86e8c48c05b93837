-- ===== src/Device/TokenStore.antt =====
-- `auth.TokenFile` (mind-palace/server/auth/auth.go) as the token store of the device flow
-- (mind-palace/server/device/device.go).
use clued.Base.{
  ℕ, ◌+◌, ◌≡◌, false, subst, some, List, [], arith, Str, is_empty, trim_space, Result, Result-cases,
  ok, err, inl, inr,
}
use clued.Auth.Token.{Principal, Error}
use clued.Auth.Token
use clued.Auth.Projects.{clean_projects}
use clued.Auth.Load.{Env, TokenFile}
use clued.Auth.File.{create, revoke, lookup_token, account_or_new}
use clued.Auth.Minting.{Unchanged, lookup_token-create}
use clued.Device.Tokens.{Tokens, CreateError, exists, failed}

-- A token file, and the number of calls made: each call has what it takes from outside.
pub record Store : Type 0 where
  pub file : TokenFile
  pub calls : ℕ

create_error : Error → CreateError
create_error Token.token_exists = exists
create_error _ = failed

map_error {ℓ} : {A : Type ℓ} → Result Error A → Result CreateError A
unfolding create_error
map_error (ok a) = ok a
map_error (err e) = err (create_error e)

module _ (hash : Str → Str) (envs : ℕ → Env) where
  unfoldable pub create_token : Store → Str → Str → List Str → Store × Result CreateError Str
  unfolding map_error
  create_token s name account_id projects =
      let (f, outcome) = create hash (envs s.calls) s.file name account_id projects in
      (record { file = f; calls = s.calls + 1 }, map_error outcome)

  pub revoke_named : Store → Str → Store × Result CreateError (Unit {0})
  unfolding map_error
  revoke_named s name =
      let (f, outcome) = revoke (envs s.calls) s.file name in
      (record { file = f; calls = s.calls + 1 }, map_error outcome)

  -- While nobody else writes the file, looking up the raw token gives the principal.
  abbrev pub Authenticates : Store → Str → Principal → Type 0
  Authenticates s raw p =
      (later : Env)
      → Unchanged later s.file
      → is_empty raw ≡ false
      → lookup_token hash later s.file raw ≡ (s.file, some p)

  pub create_token-Authenticates :
      (s s' : Store) (name account_id raw : Str) (projects : List Str)
      → create_token s name account_id projects ≡ (s', ok raw)
      → is_empty account_id ≡ false
      → Authenticates s' raw (record {
        name = trim_space name;
        account_id = account_id;
        projects = clean_projects [] projects;
      })
  unfolding create_token account_or_new
  create_token-Authenticates s s' name account_id raw projects e full later same some_raw =
      let env = envs s.calls in
      let made = create hash env s.file name account_id projects in
      elim (Result-cases made.1) [
        | inr (problem, q) ↦ absurd (ground arith)
        | inl (r, q) ↦
            let text : r ≡ raw = ground arith in
            let file : made.0 ≡ s'.file = ground arith in
            let outcome : create hash env s.file name account_id projects ≡ (s'.file, ok raw) =
              ground arith in
            let (account, drawn, found) =
              lookup_token-create hash env later s.file s'.file name account_id raw projects outcome
                same some_raw in
            let given : account ≡ account_id = ground arith in
            subst
              (λ (x : Str). lookup_token hash later s'.file raw ≡ (
                s'.file,
                some (record {
                  name = trim_space name;
                  account_id = x;
                  projects = clean_projects [] projects;
                }),
              ))
              given found
      ]

  abbrev pub file_tokens : Tokens
  file_tokens = record {
    Store = Store;
    create = create_token;
    revoke = revoke_named;
    Grants = Authenticates;
    create_Grants = create_token-Authenticates;
  }
