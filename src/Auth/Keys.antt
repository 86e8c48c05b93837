-- ===== src/Auth/Keys.antt =====
-- Environment keys of mind-palace/server/auth/auth.go: `CreateEnvironmentKey`, `Exchange`, the
-- rate limit `allowExchange`, `exchangedName`, `clientLabel` and `prune`.
use clued.Base.{
  ℕ, zero, suc, ◌+◌, ◌-◌, ◌/◌, ◌%◌, Bool, true, false, not, ◌&&◌, ◌||◌, Option, none, some, List,
  [], ◌∷◌, ◌++◌, Str, bytes, is_empty, str_eq, any, keep, lookup, insert, length, ltb, leb, ◌==◌,
  if◌then◌else◌, Result, ok, err,
}
use clued.Auth.Token.{
  Token, kind_environment, hour, default_token_ttl, min_token_ttl, max_token_ttl,
  exchanges_per_hour, prune_after, truncate_second, Error, bad_lifetime, invalid_key, rate_limited,
  no_free_name, random_failed,
}
use clued.Auth.Load.{Env, TokenFile}
use clued.Auth.File.{match_raw, create_with, append_token}

-- What `Exchange` hands a client; `TokenID` and `Name` are one value.
pub record Exchanged : Type 0 where
  pub token : Str
  pub name : Str
  pub account_id : Str
  pub expires_at : ℕ

unfoldable pub label_char : ℕ → Bool
label_char r =
    (leb b'a' r && leb r b'z')
    || (leb b'A' r && leb r b'Z')
    || (leb b'0' r && leb r b'9')
    || (r == b'.')
    || (r == b'-')
    || (r == b'_')

-- The loop of `clientLabel`, which stops at 40 bytes. What it keeps is ASCII, and no byte of a
-- longer code point is, so it goes by bytes.
unfoldable pub client_label_from : ℕ → Str → Str
client_label_from written [] = []
client_label_from written (r ∷ name) =
    let kept = r ∷ client_label_from (written + 1) name in
    let skipped = client_label_from written name in
    if leb 40 written then [] else if label_char r then kept else skipped

unfoldable pub client_label : Str → Str
unfolding client_label_from
client_label name = client_label_from 0 name

hex_digit : ℕ → ℕ
hex_digit d = if ltb d 10 then b'0' + d else b'a' + (d - 10)

-- `hex.EncodeToString`.
unfoldable pub hex : List ℕ → Str
unfolding hex_digit
hex [] = []
hex (b ∷ bs) = hex_digit (b / 16) ∷ hex_digit (b % 16) ∷ hex bs

unfoldable pub name_taken : List Token → Str → Bool
name_taken tokens name = any (λ t. str_eq t.name name) tokens

-- The draws of `exchangedName`, `tries` of them left.
unfoldable pub draw_name : ℕ → ℕ → (ℕ → Option (List ℕ)) → List Token → Str → Result Error Str
draw_name zero i suffix tokens prefix = err no_free_name
draw_name (suc tries) i suffix tokens prefix =
    let next = draw_name tries (suc i) suffix tokens prefix in
    elim (suffix i) [
      | none ↦ err random_failed
      | some drawn ↦
          if name_taken tokens (prefix ++ hex drawn) then next else ok (prefix ++ hex drawn)
    ]

unfoldable pub name_prefix : Str → Str → Str
name_prefix key client =
    let prefix = key ++ bytes "@" in
    if is_empty client then prefix else prefix ++ (client ++ bytes "-")

unfoldable pub exchanged_name : Env → List Token → Str → Str → Result Error Str
unfolding draw_name name_prefix
exchanged_name env tokens key client = draw_name 8 0 env.suffix tokens (name_prefix key client)

-- The exchanges of a key that are less than an hour old.
unfoldable pub recent_of : ℕ → Str → List (Str × List ℕ) → List ℕ
recent_of now key exchanges = elim (lookup key exchanges) [
  | none ↦ []
  | some times ↦ keep (λ at. ltb now (at + hour)) times
]

unfoldable pub allow_exchange : Str → ℕ → TokenFile → TokenFile × Bool
unfolding recent_of
allow_exchange key now f =
    let recent = recent_of now key f.exchanges in
    if leb exchanges_per_hour (length recent)
    then (record f { exchanges = insert key recent f.exchanges }, false)
    else (record f { exchanges = insert key (recent ++ now ∷ []) f.exchanges }, true)

-- Exchanged, and expired more than a day ago.
unfoldable pub is_stale : ℕ → Token → Bool
is_stale now t =
    not (is_empty t.parent) && elim t.expires [ none ↦ false | some e ↦ ltb (e + prune_after) now ]

unfoldable pub prune : ℕ → List Token → List Token
unfolding is_stale
prune now tokens = keep (λ t. not (is_stale now t)) tokens

unfoldable pub key_ttl : ℕ → ℕ
key_ttl ttl = if ttl == 0 then default_token_ttl else ttl

module _ (hash : Str → Str) where
  -- A negative lifetime, refused below the least one, is not modelled apart from that.
  unfoldable pub create_environment_key :
      Env → TokenFile → Str → Str → List Str → ℕ → TokenFile × Result Error Str
  unfolding key_ttl
  create_environment_key env f name account_id projects ttl =
      let life = key_ttl ttl in
      if ltb life min_token_ttl || ltb max_token_ttl life
      then (f, err bad_lifetime)
      else create_with hash env f name account_id projects
          (λ t. record t { kind = kind_environment; token_ttl = life })

  unfoldable pub exchange_end : Env → Token → ℕ
  unfolding key_ttl
  exchange_end env k = truncate_second (env.now + key_ttl k.token_ttl)

  -- `Exchange` behind the choice of the name.
  unfoldable pub exchange_named : Env → TokenFile → Token → Str → TokenFile × Result Error Exchanged
  unfolding exchange_end prune
  exchange_named env f k name =
      let ends = exchange_end env k in
      let (f', minted) =
        append_token hash env (record f { tokens = prune env.now f.tokens }) name k.account_id
          k.projects (λ t. record t { parent = k.name; expires = some ends }) in
      (
        f',
        elim minted [
          | ok raw ↦
              ok (record { token = raw; name = name; account_id = k.account_id; expires_at = ends })
          | err e ↦ err e
        ],
      )

  -- `Exchange` for the key that was matched.
  unfoldable pub exchange_key : Env → TokenFile → Token → Str → TokenFile × Result Error Exchanged
  unfolding allow_exchange exchange_named
  exchange_key env f k client =
      let (f', allowed) = allow_exchange k.name env.now f in
      if allowed
      then elim (exchanged_name env f'.tokens k.name (client_label client)) [
        | err e ↦ (f', err e)
        | ok name ↦ exchange_named env f' k name
      ]
      else (f', err rate_limited)

  unfoldable pub exchange : Env → TokenFile → Str → Str → TokenFile × Result Error Exchanged
  unfolding exchange_key
  exchange env f key client =
      let (f', found) = match_raw hash env f key in
      elim found [
        | none ↦ (f', err invalid_key)
        | some k ↦
            if str_eq k.kind kind_environment
            then exchange_key env f' k client
            else (f', err invalid_key)
      ]
