-- ===== src/Auth/Minting.antt =====
-- What a minted token authenticates as: `Create` and `Exchange` of
-- mind-palace/server/auth/auth.go followed by `Lookup`.
use mathlib.Core.List.{Memᴰ}
use clued.Base.{
  ◌+◌, ◌≡◌, refl, true, false, Option, none, some, List, [], ◌∷◌, ◌++◌, arith, Str, is_empty,
  str_eq, ◌&&◌, trim_space, str_eq_refl, leb, if◌then◌else◌, Option-cases, Result-cases, inl, inr,
  ok,
}
use clued.Auth.Token.{Token, kind_environment, expired, truncate_second}
use clued.Auth.Projects.{clean_projects}
use clued.Auth.Load.{Env, TokenFile, load}
use clued.Auth.File.{
  is_none, match_from, match_raw, lookup_token, new_token, append_token, append_drawn, create,
  account_or_new, saving,
}
use clued.Auth.Keys.{
  Exchanged, exchange, exchange_key, exchange_named, exchange_end, key_ttl, prune, allow_exchange,
  exchanged_name, client_label,
}
use clued.Auth.Names.{save-tokens}
use clued.Auth.Lookups.{Answers, match_raw-Answers}

-- The next call finds the file as the state has it: nobody else wrote it.
abbrev pub Unchanged : Env → TokenFile → Type 0
Unchanged env f = load env.disk f ≡ (f, true)

match_from_last :
    (found : Option Token) (want : Str) (ts : List Token) (t : Token)
    → t.hash ≡ want
    → t.revoked ≡ none
    → match_from found want (ts ++ t ∷ []) ≡ some t
unfolding match_from is_none
match_from_last found want [] t h r = rw h (ground (arith, str_eq_refl want))
match_from_last found want (x ∷ ts) t h r =
    match_from_last (if str_eq x.hash want && is_none x.revoked then some x else found) want ts t h
      r

module _ (hash : Str → Str) where
  -- A successful `appendToken` drew its token and its account, and appended one token.
  abbrev pub Appended :
      Env → TokenFile → Str → Str → List Str → (Token → Token) → TokenFile → Str → Type 0
  Appended env f name account_id projects set f' raw =
      (account : Str) × (account_or_new env account_id ≡ some account)
      × (f'.tokens ≡ f.tokens ++ set (new_token hash env raw name account projects) ∷ [])

  append_drawn-tokens :
      (env : Env) (f : TokenFile) (name : Str) (projects : List Str) (set : Token → Token)
      (drawn account : Option Str) (f' : TokenFile) (raw : Str)
      → append_drawn hash env f name projects set drawn account ≡ (f', ok raw)
      → (a : Str) × (account ≡ some a)
        × (f'.tokens ≡ f.tokens ++ set (new_token hash env raw name a projects) ∷ [])
  unfolding append_drawn saving
  append_drawn-tokens env f name projects set none account f' raw e = cc
  append_drawn-tokens env f name projects set (some r) none f' raw e = cc
  append_drawn-tokens env f name projects set (some r) (some a) f' raw e =
      let minted : Token = set (new_token hash env r name a projects) in
      (a, refl, ground (arith, save-tokens env (record f { tokens = f.tokens ++ minted ∷ [] })))

  pub append_token-Appended :
      (env : Env) (f : TokenFile) (name account_id : Str) (projects : List Str)
      (set : Token → Token) (f' : TokenFile) (raw : Str)
      → append_token hash env f name account_id projects set ≡ (f', ok raw)
      → Appended env f (trim_space name) account_id projects set f' raw
  unfolding append_token
  append_token-Appended env f name account_id projects set f' raw e =
      append_drawn-tokens env f (trim_space name) projects set env.raw
        (account_or_new env account_id) f' raw (ground arith)

  -- Looking up the raw token of the last token in the list, if that is no environment key.
  lookup_token_last :
      (env : Env) (f : TokenFile) (ts : List Token) (raw : Str) (t : Token)
      → Unchanged env f
      → f.tokens ≡ ts ++ t ∷ []
      → t.hash ≡ hash raw
      → t.revoked ≡ none
      → is_empty raw ≡ false
      → str_eq t.kind kind_environment ≡ false
      → lookup_token hash env f raw ≡ (
        f,
        if expired env.now t
            then none
            else some (record { name = t.name; account_id = t.account_id; projects = t.projects }),
      )
  unfolding lookup_token
  lookup_token_last env f ts raw t same tokens digest live full no_key =
      ground (arith, match_from_last none (hash raw) ts t digest live)

  -- The token that `Create` returns authenticates at once, as the trimmed name, the account that
  -- was asked for (or drawn, if none was) and the cleaned projects.
  pub lookup_token-create :
      (env later : Env) (f f' : TokenFile) (name account_id raw : Str) (projects : List Str)
      → create hash env f name account_id projects ≡ (f', ok raw)
      → Unchanged later f'
      → is_empty raw ≡ false
      → (account : Str) × (account_or_new env account_id ≡ some account)
        × (lookup_token hash later f' raw ≡ (
          f',
          some (record {
            name = trim_space name;
            account_id = account;
            projects = clean_projects [] projects;
          }),
        ))
  unfolding create new_token str_eq expired
  lookup_token-create env later f f' name account_id raw projects e same full =
      let (account, drawn, tokens) =
        append_token-Appended env (load env.disk f).0 name account_id projects (λ t. t) f' raw
          (ground arith) in
      (
        account,
        drawn,
        lookup_token_last later f' _ raw (new_token hash env raw (trim_space name) account projects)
            same tokens refl refl full refl,
      )

  -- The token that an exchange of the key `k` appends.
  abbrev traded_token : Env → Token → Exchanged → Str → Token
  traded_token env k e account =
      record (new_token hash env e.token (trim_space e.name) account k.projects) {
        parent = k.name;
        expires = some e.expires_at;
      }

  -- What a successful exchange of the key `k` left behind.
  record Traded (env : Env) (k : Token) (f' : TokenFile) (e : Exchanged) : Type 0 where
    account : Str
    drawn : account_or_new env k.account_id ≡ some account
    before : List Token
    tokens : f'.tokens ≡ before ++ traded_token env k e account ∷ []
    ends : e.expires_at ≡ exchange_end hash env k

  exchange_named-Traded :
      (env : Env) (f : TokenFile) (k : Token) (name : Str) (f' : TokenFile) (e : Exchanged)
      → exchange_named hash env f k name ≡ (f', ok e)
      → Traded env k f' e
  unfolding exchange_named
  exchange_named-Traded env f k name f' e h =
      elim (Result-cases (append_token hash env pruned name k.account_id k.projects traded).1) [
        | inr (problem, q) ↦ ground arith
        | inl (raw, q) ↦
            let (account, drawn, tokens) =
              append_token-Appended env pruned name k.account_id k.projects traded f' raw
                (ground arith) in
            record {
              account = account;
              drawn = drawn;
              before = pruned.tokens;
              tokens = ground arith;
              ends = ground arith;
            }
      ]
    where
      pruned : TokenFile
      pruned = record f { tokens = prune env.now f.tokens }

      traded : Token → Token
      traded t = record t { parent = k.name; expires = some (exchange_end hash env k) }

  exchange_key-Traded :
      (env : Env) (f : TokenFile) (k : Token) (client : Str) (f' : TokenFile) (e : Exchanged)
      → exchange_key hash env f k client ≡ (f', ok e)
      → Traded env k f' e
  unfolding exchange_key
  exchange_key-Traded env f k client f' e h =
      let counted = (allow_exchange k.name env.now f).0 in
      elim (Result-cases (exchanged_name env counted.tokens k.name (client_label client))) [
        | inr (problem, q) ↦ ground arith
        | inl (name, q) ↦ exchange_named-Traded env counted k name f' e (ground arith)
      ]

  -- A successful exchange was of a listed, unrevoked environment key, and the token it returns
  -- authenticates for the key's account (a drawn one, if the key has none) and projects, until
  -- the end that was promised and not from then on. That end is the key's lifetime after the
  -- exchange, cut to the second.
  pub lookup_token-exchange :
      (env later : Env) (f f' : TokenFile) (key client : Str) (e : Exchanged)
      → exchange hash env f key client ≡ (f', ok e)
      → Unchanged later f'
      → is_empty e.token ≡ false
      → (k : Token) × Memᴰ k (load env.disk f).0.tokens
        × Answers (hash key) k
        × (str_eq k.kind kind_environment ≡ true)
        × (e.expires_at ≡ truncate_second (env.now + key_ttl k.token_ttl))
        × (account : Str) × (account_or_new env k.account_id ≡ some account)
        × (lookup_token hash later f' e.token ≡ (
          f',
          if leb e.expires_at later.now
              then none
              else some (record {
                name = trim_space e.name;
                account_id = account;
                projects = clean_projects [] k.projects;
              }),
        ))
  unfolding exchange exchange_end new_token str_eq expired match_raw
  lookup_token-exchange env later f f' key client e h same full =
      elim (Option-cases (match_raw hash env f key).1) [
        | inl m ↦ ground arith
        | inr (k, m) ↦
            let (listed, answers) = match_raw-Answers hash env f key k m in
            let traded =
              exchange_key-Traded env (match_raw hash env f key).0 k client f' e (ground arith) in
            (
              k,
              listed,
              answers,
              ground arith,
              traded.ends,
              traded.account,
              traded.drawn,
              lookup_token_last later f' traded.before e.token (traded_token env k e traded.account)
                  same traded.tokens refl refl full refl,
            )
      ]
