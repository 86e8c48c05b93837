-- ===== src/Auth/Lookups.antt =====
-- Which tokens authenticate: `Lookup` and `match` of mind-palace/server/auth/auth.go against the
-- list of tokens.
use mathlib.Core.List.{Memᴰ}
use clued.Base.{
  ℕ, ◌≡◌, false, Option, none, some, List, [], ◌∷◌, ◌⊎◌, inl, inr, arith, Str, sym, ◌&&◌,
  if◌then◌else◌, str_eq, str_eq_iff, Bool-cases, Option-cases,
}
use clued.Auth.Token.{Principal, Token, kind_environment, expired}
use clued.Auth.Load.{Env, TokenFile, load}
use clued.Auth.File.{is_none, match_from, match_raw, lookup_token}

-- What makes a token the answer for a digest.
pub record Answers (want : Str) (t : Token) : Type 0 where
  pub digest : t.hash ≡ want
  pub unrevoked : t.revoked ≡ none

kept-Answers :
    (found : Option Token) (want : Str) (x t : Token)
    → (if str_eq x.hash want && is_none x.revoked then some x else found) ≡ some t
    → (found ≡ some t) ⊎ ((x ≡ t) × Answers want t)
unfolding is_none
kept-Answers found want x t e = elim (Bool-cases (str_eq x.hash want && is_none x.revoked)) [
  | inl hit ↦ inr (ground arith, ground (arith, str_eq_iff x.hash want))
  | inr miss ↦ inl (ground arith)
]

pub match_from-Answers :
    (found : Option Token) (want : Str) (ts : List Token) (t : Token)
    → match_from found want ts ≡ some t
    → (found ≡ some t) ⊎ (Memᴰ t ts × Answers want t)
unfolding match_from
match_from-Answers found want [] t e = inl e
match_from-Answers found want (x ∷ ts) t e =
    elim (match_from-Answers (if str_eq x.hash want && is_none x.revoked then some x else found)
      want ts t e) [
        | inr (m, a) ↦ inr (Memᴰ.tail m, a)
        | inl p ↦ elim (kept-Answers found want x t p) [
          | inl q ↦ inl q
          | inr (same, a) ↦ inr (Memᴰ.head (sym same), a)
        ]
      ]

-- What `Lookup` promises of the principal it returns, about the tokens that it read.
pub record IsBacked (hash : Str → Str) (now : ℕ) (raw : Str) (tokens : List Token) (p : Principal)
    : Type 0 where
  pub token : Token
  pub listed : Memᴰ token tokens
  pub answers : Answers (hash raw) token
  pub no_key : str_eq token.kind kind_environment ≡ false
  pub alive : expired now token ≡ false
  pub named : token.name ≡ p.name
  pub account : token.account_id ≡ p.account_id
  pub granted : token.projects ≡ p.projects

module _ (hash : Str → Str) where
  pub match_raw-Answers :
      (env : Env) (f : TokenFile) (raw : Str) (t : Token)
      → (match_raw hash env f raw).1 ≡ some t
      → Memᴰ t (match_raw hash env f raw).0.tokens × Answers (hash raw) t
  unfolding match_raw
  match_raw-Answers env f raw t e =
      elim (match_from-Answers none (hash raw) (load env.disk f).0.tokens t (ground arith)) [
        | inl p ↦ cc
        | inr a ↦ a
      ]

  -- A principal that `Lookup` returns is that of a listed token: its digest is the raw token's, it
  -- is not revoked, not expired and no environment key.
  pub lookup_token-IsBacked :
      (env : Env) (f : TokenFile) (raw : Str) (p : Principal)
      → (lookup_token hash env f raw).1 ≡ some p
      → IsBacked hash env.now raw (lookup_token hash env f raw).0.tokens p
  unfolding lookup_token
  lookup_token-IsBacked env f raw p e = elim (Option-cases (match_raw hash env f raw).1) [
    | inl m ↦ ground arith
    | inr (t, m) ↦
        let (listed, answers) = match_raw-Answers env f raw t m in
        record {
          token = t;
          listed = listed;
          answers = answers;
          no_key = ground arith;
          alive = ground arith;
          named = ground arith;
          account = ground arith;
          granted = ground arith;
        }
  ]
