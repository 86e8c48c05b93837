-- ===== src/Auth/File.antt =====
-- The operations of `TokenFile` (mind-palace/server/auth/auth.go) on tokens: `Lookup`, `Create`,
-- `Revoke` and `Grant`. SHA-256 is the parameter `hash`.
use clued.Base.{
  ℕ, suc, Bool, true, false, not, ◌&&◌, ◌||◌, Option, none, some, List, [], ◌∷◌, ◌++◌, Str,
  is_empty, str_eq, any, get_elem?, trim_space, ◌==◌, if◌then◌else◌, Result, ok, err,
}
use clued.Auth.Token.{
  Principal, Token, kind_environment, truncate_second, expired, Error, load_failed, save_failed,
  random_failed, name_required, token_exists, no_such_token, token_revoked,
}
use clued.Auth.Projects.{clean_projects}
use clued.Auth.Load.{Env, TokenFile, load, save}

unfoldable pub is_none {ℓ} : {A : Type ℓ} → Option A → Bool
is_none none = true
is_none (some a) = false

-- `TokenFile.index`: the first token of that name. A loop from position `i`.
unfoldable pub index_from : ℕ → Str → List Token → Option ℕ
index_from i name [] = none
index_from i name (t ∷ ts) = if str_eq t.name name then some i else index_from (suc i) name ts

unfoldable pub index : Str → List Token → Option ℕ
unfolding index_from
index name tokens = index_from 0 name tokens

-- The loop of `match`: the last unrevoked token with the digest.
unfoldable pub match_from : Option Token → Str → List Token → Option Token
match_from found want [] = found
match_from found want (t ∷ ts) =
    match_from (if str_eq t.hash want && is_none t.revoked then some t else found) want ts

-- The outcome of `save` after a change: the error, or the value.
unfoldable pub saving {ℓ} : {A : Type ℓ} → Env → TokenFile → A → TokenFile × Result Error A
saving env f a = let (f', done) = save env.saved f in (f', if done then ok a else err save_failed)

-- `accountID`, or a fresh one if it is empty.
unfoldable pub account_or_new : Env → Str → Option Str
account_or_new env account_id = if is_empty account_id then env.account_id else some account_id

module _ (hash : Str → Str) where
  -- `match`, with the state that its `load` leaves.
  unfoldable pub match_raw : Env → TokenFile → Str → TokenFile × Option Token
  unfolding match_from
  match_raw env f raw =
      let (f', loaded) = load env.disk f in
      (f', if not loaded || is_empty raw then none else match_from none (hash raw) f'.tokens)

  unfoldable pub lookup_token : Env → TokenFile → Str → TokenFile × Option Principal
  unfolding match_raw
  lookup_token env f raw =
      let (f', found) = match_raw env f raw in
      (
        f',
        elim found [
          | none ↦ none
          | some t ↦
              if str_eq t.kind kind_environment || expired env.now t
              then none
              else some (record { name = t.name; account_id = t.account_id; projects = t.projects })
        ],
      )

  -- The token that `appendToken` builds before `set`.
  unfoldable pub new_token : Env → Str → Str → Str → List Str → Token
  new_token env raw name account_id projects = record {
    name = name;
    hash = hash raw;
    account_id = account_id;
    projects = clean_projects [] projects;
    created = truncate_second env.now;
    revoked = none;
    kind = [];
    token_ttl = 0;
    parent = [];
    expires = none;
  }

  -- `appendToken` behind its guards: the draws, the append and the save.
  unfoldable pub append_drawn :
      Env
      → TokenFile
      → Str
      → List Str
      → (Token → Token)
      → Option Str
      → Option Str
      → TokenFile × Result Error Str
  unfolding new_token saving
  append_drawn env f name projects set none account = (f, err random_failed)
  append_drawn env f name projects set (some raw) none = (f, err random_failed)
  append_drawn env f name projects set (some raw) (some account) =
      saving env
        (record f { tokens = f.tokens ++ set (new_token env raw name account projects) ∷ [] }) raw

  unfoldable pub append_token :
      Env → TokenFile → Str → Str → List Str → (Token → Token) → TokenFile × Result Error Str
  unfolding append_drawn account_or_new
  append_token env f name account_id projects set =
      let trimmed = trim_space name in
      if is_empty trimmed
      then (f, err name_required)
      else if any (λ t. str_eq t.name trimmed) f.tokens
      then (f, err token_exists)
      else append_drawn env f trimmed projects set env.raw (account_or_new env account_id)

  unfoldable pub create_with :
      Env → TokenFile → Str → Str → List Str → (Token → Token) → TokenFile × Result Error Str
  unfolding append_token
  create_with env f name account_id projects set =
      let (f', loaded) = load env.disk f in
      if loaded then append_token env f' name account_id projects set else (f', err load_failed)

  unfoldable pub create : Env → TokenFile → Str → Str → List Str → TokenFile × Result Error Str
  unfolding create_with
  create env f name account_id projects = create_with env f name account_id projects (λ t. t)

-- The loop of `Revoke`: token `i` from the position `j` on, and, if it is an environment key, the
-- tokens whose parent it is.
unfoldable pub revoke_from : ℕ → ℕ → Bool → Str → ℕ → List Token → List Token × Bool
unfolding is_none
revoke_from now i is_key name j [] = ([], false)
revoke_from now i is_key name j (t ∷ ts) =
    let (rest, changed) = revoke_from now i is_key name (suc j) ts in
    if ((j == i) || (is_key && str_eq t.parent name)) && is_none t.revoked
    then (record t { revoked = some now } ∷ rest, true)
    else (t ∷ rest, changed)

unfoldable pub is_key_at : Option Token → Bool
is_key_at none = false
is_key_at (some t) = str_eq t.kind kind_environment

unfoldable pub revoke_loaded : Env → TokenFile → Str → TokenFile × Result Error (Unit {0})
unfolding index revoke_from is_key_at saving
revoke_loaded env f name = elim (index name f.tokens) [
  | none ↦ (f, err no_such_token)
  | some i ↦
      let (tokens, changed) =
        revoke_from (truncate_second env.now) i (is_key_at (get_elem? f.tokens i)) name 0
          f.tokens in
      let f' = record f { tokens = tokens } in if changed then saving env f' tt else (f', ok tt)
]

unfoldable pub revoke : Env → TokenFile → Str → TokenFile × Result Error (Unit {0})
unfolding revoke_loaded
revoke env f name =
    let (f', loaded) = load env.disk f in
    if loaded then revoke_loaded env f' name else (f', err load_failed)

-- The first token of the name gets the projects; the flag says whether it is revoked, `none` that
-- there is no such token.
unfoldable pub grant_tokens : Str → List Str → List Token → Option (Result Error (List Token))
unfolding is_none
grant_tokens name projects [] = none
grant_tokens name projects (t ∷ ts) =
    let rest = grant_tokens name projects ts in
    if str_eq t.name name
    then (if is_none t.revoked
        then some (ok (record t { projects = clean_projects t.projects projects } ∷ ts))
        else some (err token_revoked))
    else elim rest [
      | none ↦ none
      | some (ok out) ↦ some (ok (t ∷ out))
      | some (err e) ↦ some (err e)
    ]

unfoldable pub grant : Env → TokenFile → Str → List Str → TokenFile × Result Error (Unit {0})
unfolding grant_tokens saving
grant env f name projects =
    let (f', loaded) = load env.disk f in
    if loaded
    then elim (grant_tokens name projects f'.tokens) [
      | none ↦ (f', err no_such_token)
      | some (err e) ↦ (f', err e)
      | some (ok tokens) ↦ saving env (record f' { tokens = tokens }) tt
    ]
    else (f', err load_failed)
