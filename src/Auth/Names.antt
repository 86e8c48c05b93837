-- ===== src/Auth/Names.antt =====
-- The names in the token file of mind-palace/server/auth/auth.go stay distinct under its calls.
use clued.Base.{
  ℕ, suc, ◌≡◌, refl, Bool, false, ◌||◌, Option, none, some, List, [], ◌∷◌, ◌++◌, arith, Str, str_eq,
  str_eq_iff, any, keep, get_elem?, trim_space, Option-cases, Bool-cases, Result-cases, inl, inr,
  ok,
}
use clued.Auth.Token.{Token, truncate_second, kind_environment}
use clued.Auth.Load.{Env, TokenFile, load, save}
use clued.Auth.File.{
  append_token, append_drawn, new_token, account_or_new, create, create_with, revoke, revoke_loaded,
  revoke_from, grant, grant_tokens, saving, index, is_key_at, match_raw, lookup_token,
}
use clued.Auth.Keys.{
  name_taken, create_environment_key, exchange, exchange_key, exchange_named, exchanged_name,
  client_label, allow_exchange, prune, exchange_end, key_ttl,
}

abbrev pub UniqueNames : List Token → Type 0
UniqueNames [] = Unit {0}
UniqueNames (t ∷ ts) = (name_taken ts t.name ≡ false) × UniqueNames ts

name_taken-append :
    (ts us : List Token) (n : Str) → name_taken (ts ++ us) n ≡ (name_taken ts n || name_taken us n)
unfolding name_taken any
name_taken-append [] us n = refl
name_taken-append (t ∷ ts) us n = ground (arith, name_taken-append ts us n)

append-UniqueNames :
    (ts : List Token) (t : Token)
    → UniqueNames ts
    → name_taken ts t.name ≡ false
    → UniqueNames (ts ++ t ∷ [])
unfolding name_taken any
append-UniqueNames [] t u h = (refl, tt)
append-UniqueNames (x ∷ ts) t u h = (
  ground (
    arith,
    name_taken-append ts (t ∷ []) x.name,
    str_eq_iff x.name t.name,
    str_eq_iff t.name x.name,
  ),
  append-UniqueNames ts t u.1 (ground arith),
)

name_taken-keep :
    (p : Token → Bool) (ts : List Token) (n : Str)
    → name_taken ts n ≡ false
    → name_taken (keep p ts) n ≡ false
unfolding name_taken any keep
name_taken-keep p [] n h = refl
name_taken-keep p (t ∷ ts) n h = ground (arith, name_taken-keep p ts n)

keep-UniqueNames : (p : Token → Bool) (ts : List Token) → UniqueNames ts → UniqueNames (keep p ts)
unfolding keep
keep-UniqueNames p [] u = tt
keep-UniqueNames p (t ∷ ts) u = elim (Bool-cases (p t)) [
  | inl e ↦ rw e (name_taken-keep p ts t.name u.0, keep-UniqueNames p ts u.1)
  | inr e ↦ rw e (keep-UniqueNames p ts u.1)
]

module _ (now i : ℕ) (is_key : Bool) (name : Str) where
  name_taken-revoke_from :
      (j : ℕ) (ts : List Token) (n : Str)
      → name_taken (revoke_from now i is_key name j ts).0 n ≡ name_taken ts n
  unfolding name_taken any revoke_from
  name_taken-revoke_from j [] n = refl
  name_taken-revoke_from j (t ∷ ts) n = ground (arith, name_taken-revoke_from (suc j) ts n)

  revoke_from-UniqueNames :
      (j : ℕ) (ts : List Token)
      → UniqueNames ts
      → UniqueNames (revoke_from now i is_key name j ts).0
  unfolding revoke_from
  revoke_from-UniqueNames j [] u = tt
  revoke_from-UniqueNames j (t ∷ ts) u =
      ground
        (arith, name_taken-revoke_from (suc j) ts t.name, revoke_from-UniqueNames (suc j) ts u.1)

name_taken-grant_tokens :
    (name : Str) (projects : List Str) (ts us : List Token) (n : Str)
    → grant_tokens name projects ts ≡ some (ok us)
    → name_taken us n ≡ name_taken ts n
unfolding name_taken any grant_tokens
name_taken-grant_tokens name projects [] us n e = cc
name_taken-grant_tokens name projects (t ∷ ts) us n e = elim (Bool-cases (str_eq t.name name)) [
  | inl q ↦ ground arith
  | inr q ↦ elim (Option-cases (grant_tokens name projects ts)) [
    | inl m ↦ ground arith
    | inr (r, m) ↦ elim (Result-cases r) [
      | inl (out, w) ↦ ground (arith, name_taken-grant_tokens name projects ts out n)
      | inr (x, w) ↦ ground arith
    ]
  ]
]

grant_tokens-UniqueNames :
    (name : Str) (projects : List Str) (ts us : List Token)
    → UniqueNames ts
    → grant_tokens name projects ts ≡ some (ok us)
    → UniqueNames us
unfolding grant_tokens
grant_tokens-UniqueNames name projects [] us u e = cc
grant_tokens-UniqueNames name projects (t ∷ ts) us u e = elim (Bool-cases (str_eq t.name name)) [
  | inl q ↦ ground arith
  | inr q ↦ elim (Option-cases (grant_tokens name projects ts)) [
    | inl m ↦ ground arith
    | inr (r, m) ↦ elim (Result-cases r) [
      | inl (out, w) ↦ ground (
        arith,
        name_taken-grant_tokens name projects ts out t.name,
        grant_tokens-UniqueNames name projects ts out u.1,
      )
      | inr (x, w) ↦ ground arith
    ]
  ]
]

pub save-tokens : (env : Env) (f : TokenFile) → (save env.saved f).0.tokens ≡ f.tokens
unfolding save
save-tokens env f = ground arith

allow_exchange-tokens :
    (key : Str) (now : ℕ) (f : TokenFile) → (allow_exchange key now f).0.tokens ≡ f.tokens
unfolding allow_exchange
allow_exchange-tokens key now f = ground arith

saving-tokens {ℓ} :
    {A : Type ℓ} (env : Env) (f : TokenFile) (a : A) → (saving env f a).0.tokens ≡ f.tokens
unfolding saving
saving-tokens env f a = save-tokens env f

revoke_loaded-UniqueNames :
    (env : Env) (f : TokenFile) (name : Str)
    → UniqueNames f.tokens
    → UniqueNames (revoke_loaded env f name).0.tokens
unfolding revoke_loaded
revoke_loaded-UniqueNames env f name u = elim (Option-cases (index name f.tokens)) [
  | inl m ↦ ground arith
  | inr (i, m) ↦
      let now = truncate_second env.now in
      let key = is_key_at (get_elem? f.tokens i) in
      let tokens = (revoke_from now i key name 0 f.tokens).0 in
      let kept : UniqueNames tokens = revoke_from-UniqueNames now i key name 0 f.tokens u in
      ground (arith, kept, save-tokens env (record f { tokens = tokens }))
]

grant-UniqueNames :
    (env : Env) (f : TokenFile) (name : Str) (projects : List Str)
    → UniqueNames (load env.disk f).0.tokens
    → UniqueNames (grant env f name projects).0.tokens
unfolding grant
grant-UniqueNames env f name projects u =
    elim (Option-cases (grant_tokens name projects (load env.disk f).0.tokens)) [
      | inl m ↦ ground arith
      | inr (r, m) ↦ elim (Result-cases r) [
        | inr (x, w) ↦ ground arith
        | inl (tokens, w) ↦ ground (
          arith,
          grant_tokens-UniqueNames name projects (load env.disk f).0.tokens tokens u (ground arith),
          save-tokens env (record (load env.disk f).0 { tokens = tokens }),
        )
      ]
    ]

-- The calls that can change the tokens.
pub data Call : Type 0 where
  creates : (name account_id : Str) → (projects : List Str) → Call
  creates_key : (name account_id : Str) → (projects : List Str) → (ttl : ℕ) → Call
  exchanges : (key client : Str) → Call
  revokes : (name : Str) → Call
  grants : (name : Str) → (projects : List Str) → Call
  looks_up : (raw : Str) → Call

module _ (hash : Str → Str) where
  abbrev pub after_call : Env → TokenFile → Call → TokenFile
  after_call env f (creates name account_id projects) =
      (create hash env f name account_id projects).0
  after_call env f (creates_key name account_id projects ttl) =
      (create_environment_key hash env f name account_id projects ttl).0
  after_call env f (exchanges key client) = (exchange hash env f key client).0
  after_call env f (revokes name) = (revoke env f name).0
  after_call env f (grants name projects) = (grant env f name projects).0
  after_call env f (looks_up raw) = (lookup_token hash env f raw).0

  module _ (env : Env) (set : Token → Token) (set_name : (t : Token) → (set t).name ≡ t.name) where
    append_drawn-UniqueNames :
        (f : TokenFile) (name : Str) (projects : List Str) (raw account : Option Str)
        → UniqueNames f.tokens
        → name_taken f.tokens name ≡ false
        → UniqueNames (append_drawn hash env f name projects set raw account).0.tokens
    unfolding append_drawn
    append_drawn-UniqueNames f name projects none account u h = u
    append_drawn-UniqueNames f name projects (some raw) none u h = u
    append_drawn-UniqueNames f name projects (some raw) (some account) u h =
        let t : Token = new_token hash env raw name account projects in
        rw (save-tokens env (record f { tokens = f.tokens ++ set t ∷ [] }))
          (append-UniqueNames f.tokens (set t) u (rw (set_name t) h))

    append_token-UniqueNames :
        (f : TokenFile) (name account_id : Str) (projects : List Str)
        → UniqueNames f.tokens
        → UniqueNames (append_token hash env f name account_id projects set).0.tokens
    unfolding append_token name_taken
    append_token-UniqueNames f name account_id projects u = ground (
      arith,
      append_drawn-UniqueNames f (trim_space name) projects env.raw (account_or_new env account_id)
          u,
    )

    create_with-UniqueNames :
        (f : TokenFile) (name account_id : Str) (projects : List Str)
        → UniqueNames (load env.disk f).0.tokens
        → UniqueNames (create_with hash env f name account_id projects set).0.tokens
    unfolding create_with
    create_with-UniqueNames f name account_id projects u =
        ground (arith, append_token-UniqueNames (load env.disk f).0 name account_id projects u)

  exchange_named-UniqueNames :
      (env : Env) (f : TokenFile) (k : Token) (name : Str)
      → UniqueNames f.tokens
      → UniqueNames (exchange_named hash env f k name).0.tokens
  unfolding exchange_named
  exchange_named-UniqueNames env f k name u =
      append_token-UniqueNames env
        (λ t. record t { parent = k.name; expires = some (exchange_end hash env k) }) (λ t. refl)
        (record f { tokens = prune env.now f.tokens }) name k.account_id k.projects
        (keep-UniqueNames _ f.tokens u)

  exchange_key-UniqueNames :
      (env : Env) (f : TokenFile) (k : Token) (client : Str)
      → UniqueNames f.tokens
      → UniqueNames (exchange_key hash env f k client).0.tokens
  unfolding exchange_key
  exchange_key-UniqueNames env f k client u =
      let counted = (allow_exchange k.name env.now f).0 in
      let kept : UniqueNames counted.tokens = rw (allow_exchange-tokens k.name env.now f) u in
      elim (Result-cases (exchanged_name env counted.tokens k.name (client_label client))) [
        | inr (problem, q) ↦ ground arith
        | inl (name, q) ↦ ground (arith, exchange_named-UniqueNames env counted k name kept)
      ]

  -- Every call keeps the names of the file distinct, if those in memory and those that it read
  -- are: `Create` and `Exchange` refuse or draw again a name that is taken, and the rest add none.
  pub after_call-UniqueNames :
      (env : Env) (f : TokenFile) (c : Call)
      → UniqueNames f.tokens
      → UniqueNames (load env.disk f).0.tokens
      → UniqueNames (after_call env f c).tokens
  unfolding create create_environment_key exchange revoke lookup_token match_raw
  after_call-UniqueNames env f (creates name account_id projects) v u =
      create_with-UniqueNames env (λ t. t) (λ t. refl) f name account_id projects u
  after_call-UniqueNames env f (creates_key name account_id projects ttl) v u =
      let set : Token → Token =
        λ t. record t { kind = kind_environment; token_ttl = key_ttl ttl } in
      ground (arith, create_with-UniqueNames env set (λ t. refl) f name account_id projects u)
  after_call-UniqueNames env f (exchanges key client) v u =
      elim (Option-cases (match_raw hash env f key).1) [
        | inl m ↦ ground arith
        | inr (k, m) ↦ ground (arith, exchange_key-UniqueNames env (load env.disk f).0 k client u)
      ]
  after_call-UniqueNames env f (revokes name) v u =
      ground (arith, revoke_loaded-UniqueNames env (load env.disk f).0 name u)
  after_call-UniqueNames env f (grants name projects) v u = grant-UniqueNames env f name projects u
  after_call-UniqueNames env f (looks_up raw) v u = u
