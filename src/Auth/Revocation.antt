-- ===== src/Auth/Revocation.antt =====
-- What `Revoke` of mind-palace/server/auth/auth.go ends.
use mathlib.Core.List.{Memᴰ}
use clued.Base.{
  ℕ, suc, ◌≡◌, sym, ap, subst, ◌∙◌, ◌≢◌, Bool, true, false, ◌&&◌, ◌||◌, ◌==◌, none, some, List, [],
  ◌∷◌, arith, Str, str_eq, str_eq_iff, any, get_elem?, All, Option-cases, Bool-cases, inl, inr, ok,
}
use clued.Auth.Token.{Principal, Token, truncate_second}
use clued.Auth.Load.{Env, TokenFile, load}
use clued.Auth.File.{
  revoke, revoke_loaded, revoke_from, index, index_from, is_key_at, is_none, lookup_token,
  match_raw,
}
use clued.Auth.Keys.{name_taken}
use clued.Auth.Names.{UniqueNames, save-tokens}
use clued.Auth.Lookups.{lookup_token-IsBacked}
use clued.Auth.Minting.{Unchanged}

-- No token of the name is left unrevoked.
abbrev pub IsEnded : Str → Token → Type 0
IsEnded name t = t.name ≡ name → t.revoked ≢ none

-- No token exchanged for the key is left unrevoked.
abbrev pub IsOrphaned : Str → Token → Type 0
IsOrphaned name t = t.parent ≡ name → t.revoked ≢ none

All-Mem {ℓ κ} : {A : Type ℓ} (P : A → Type κ) (xs : List A) (a : A) → All P xs → Memᴰ a xs → P a
All-Mem P [] a h m = elim m [ ]
All-Mem P (x ∷ xs) a h (Memᴰ.head e) = subst P (sym e) h.0
All-Mem P (x ∷ xs) a h (Memᴰ.tail m) = All-Mem P xs a h.1 m

-- Whether the loop marks the token at position `j`.
abbrev is_marked : ℕ → Bool → Str → ℕ → Token → Bool
is_marked i is_key name j t = ((j == i) || (is_key && str_eq t.parent name)) && is_none t.revoked

-- One round of the loop, by what it does to the head.
revoke_from-All {ℓ} :
    (P : Token → Type ℓ) (now i : ℕ) (is_key : Bool) (name : Str) (j : ℕ) (t : Token)
    (ts : List Token)
    → (is_marked i is_key name j t ≡ true → P (record t { revoked = some now }))
    → (is_marked i is_key name j t ≡ false → P t)
    → All P (revoke_from now i is_key name (suc j) ts).0
    → All P (revoke_from now i is_key name j (t ∷ ts)).0
unfolding revoke_from
revoke_from-All P now i is_key name j t ts marked left rest =
    elim (Bool-cases (is_marked i is_key name j t)) [
      | inl e ↦ rw e (marked e, rest)
      | inr e ↦ rw e (left e, rest)
    ]

module _ (now : ℕ) (is_key : Bool) (name : Str) where
  revoke_from_absent :
      (i j : ℕ) (ts : List Token)
      → name_taken ts name ≡ false
      → All (IsEnded name) (revoke_from now i is_key name j ts).0
  unfolding revoke_from name_taken any
  revoke_from_absent i j [] h = tt
  revoke_from_absent i j (t ∷ ts) h =
      revoke_from-All (IsEnded name) now i is_key name j t ts (λ e q. cc)
        (λ e q. ground (arith, str_eq_iff t.name name))
        (revoke_from_absent i (suc j) ts (ground arith))

  revoke_from-IsEnded :
      (i j : ℕ) (ts : List Token)
      → UniqueNames ts
      → index_from j name ts ≡ some i
      → All (IsEnded name) (revoke_from now i is_key name j ts).0
  unfolding revoke_from index_from
  revoke_from-IsEnded i j [] u e = tt
  revoke_from-IsEnded i j (t ∷ ts) u e = elim (Bool-cases (str_eq t.name name)) [
    | inl q ↦
        let same : t.name ≡ name = (str_eq_iff t.name name).0 q in
        revoke_from-All (IsEnded name) now i is_key name j t ts (λ m r. cc)
          (λ m r. unfold is_none in ground arith)
          (revoke_from_absent i (suc j) ts (subst (λ n. name_taken ts n ≡ false) same u.0))
    | inr q ↦
        revoke_from-All (IsEnded name) now i is_key name j t ts (λ m r. cc)
          (λ m r. ground (arith, str_eq_iff t.name name))
          (revoke_from-IsEnded i (suc j) ts u.1 (ground arith))
  ]

revoke_from-IsOrphaned :
    (now i : ℕ) (name : Str) (j : ℕ) (ts : List Token)
    → All (IsOrphaned name) (revoke_from now i true name j ts).0
unfolding revoke_from
revoke_from-IsOrphaned now i name j [] = tt
revoke_from-IsOrphaned now i name j (t ∷ ts) =
    revoke_from-All (IsOrphaned name) now i true name j t ts (λ m r. cc)
      (λ m r. unfold is_none in ground (arith, str_eq_iff t.parent name))
      (revoke_from-IsOrphaned now i name (suc j) ts)

revoke_loaded-tokens :
    (env : Env) (f f' : TokenFile) (name : Str)
    → revoke_loaded env f name ≡ (f', ok tt)
    → (i : ℕ) × (index name f.tokens ≡ some i)
      × (f'.tokens
          ≡ (revoke_from
              (truncate_second env.now)
              i
              (is_key_at (get_elem? f.tokens i))
              name
              0
              f.tokens).0)
unfolding revoke_loaded
revoke_loaded-tokens env f f' name e = elim (Option-cases (index name f.tokens)) [
  | inl m ↦ absurd (ground arith)
  | inr (i, m) ↦
      let tokens : List Token =
        (revoke_from (truncate_second env.now) i (is_key_at (get_elem? f.tokens i)) name 0
          f.tokens).0 in
      (i, m, ground (arith, save-tokens env (record f { tokens = tokens })))
]

-- A `Revoke` that succeeds leaves no unrevoked token of that name in a file of distinct names.
revoke-IsEnded :
    (env : Env) (f f' : TokenFile) (name : Str)
    → UniqueNames (load env.disk f).0.tokens
    → revoke env f name ≡ (f', ok tt)
    → All (IsEnded name) f'.tokens
unfolding revoke index
revoke-IsEnded env f f' name u e =
    let (i, at, tokens) = revoke_loaded-tokens env (load env.disk f).0 f' name (ground arith) in
    rw tokens (revoke_from-IsEnded (truncate_second env.now) _ name i 0 _ u at)

-- A `Revoke` that succeeds, of the name whose first token is an environment key, leaves no
-- unrevoked token that was exchanged for the key.
pub revoke-IsOrphaned :
    (env : Env) (f f' : TokenFile) (name : Str) (i : ℕ)
    → index name (load env.disk f).0.tokens ≡ some i
    → is_key_at (get_elem? (load env.disk f).0.tokens i) ≡ true
    → revoke env f name ≡ (f', ok tt)
    → All (IsOrphaned name) f'.tokens
unfolding revoke
revoke-IsOrphaned env f f' name i at key e =
    let (j, at', tokens) = revoke_loaded-tokens env (load env.disk f).0 f' name (ground arith) in
    let same : i ≡ j = ground arith in
    let key' : is_key_at (get_elem? (load env.disk f).0.tokens j) ≡ true =
      subst (λ (n : ℕ). is_key_at (get_elem? (load env.disk f).0.tokens n) ≡ true) same key in
    rw (tokens, key') (revoke_from-IsOrphaned (truncate_second env.now) j name 0 _)

-- After a `Revoke` that succeeded nothing authenticates as that name, while the file is as the
-- call left it.
pub lookup_token-revoke :
    (hash : Str → Str) (env later : Env) (f f' : TokenFile) (name raw : Str) (p : Principal)
    → UniqueNames (load env.disk f).0.tokens
    → revoke env f name ≡ (f', ok tt)
    → Unchanged later f'
    → (lookup_token hash later f' raw).1 ≡ some p
    → p.name ≢ name
unfolding lookup_token match_raw
lookup_token-revoke hash env later f f' name raw p u e same found q =
    let b = lookup_token-IsBacked hash later f' raw p found in
    let ended = revoke-IsEnded env f f' name u e in
    All-Mem (IsEnded name) _ b.token ended
      (subst (Memᴰ b.token) (ap (λ (s : TokenFile × Bool). s.0.tokens) same) b.listed) (b.named ∙ q)
      b.answers.unrevoked
