-- ===== src/Device/Approval.antt =====
-- `Approve`, `mint` and `RevokeToken` of mind-palace/server/device/device.go, over any token store.
use clued.Base.{
  ℕ, zero, suc, List, ◌∷◌, ◌++◌, Str, is_empty, trim_space, decimal, if◌then◌else◌, Result, ok, err,
}
use clued.Auth.Token.{Principal}
use clued.Device.Codes.{Unicode, format}
use clued.Device.Tokens.{Tokens, CreateError, exists, failed}
use clued.Device.Flow.{Flow, Request, approved, Error, token_exists, token_failed, write, decidable}
use clued.Device.Grantable.{grantable}

abbrev pub max_name_tries : ℕ
max_name_tries = 50

-- `fmt.Sprintf("%s-%d", name, i)`.
unfoldable pub numbered : Str → ℕ → Str
numbered name i = name ++ (b'-' ∷ decimal i)

pub record Approval : Type 0 where
  pub user_code : Str
  pub name : Str
  pub account_id : Str
  pub projects : List Str

module _ (T : Tokens) where
  open T use {Store, create, revoke}

  -- The loop of `mint` with `rounds` left, `i` the counter and `used` the name that is tried next.
  unfoldable pub mint_from :
      ℕ → ℕ → Str → Str → Str → List Str → Store → Store × Result Error (Str × Str)
  mint_from zero i used name account_id projects s = (s, err token_exists)
  mint_from (suc rounds) i used name account_id projects s =
      let (s', created) = create s used account_id projects in
      let next = mint_from rounds (suc i) (numbered name i) name account_id projects s' in
      elim created [
        | ok raw ↦ (s', ok (raw, used))
        | err exists ↦ next
        | err failed ↦ (s', err token_failed)
      ]

  -- The counter runs from 2 to `max_name_tries`.
  unfoldable pub mint : Str → Str → List Str → Store → Store × Result Error (Str × Str)
  unfolding mint_from
  mint name account_id projects s = mint_from 49 2 name name account_id projects s

  unfoldable pub token_name : Request → Str → Str
  token_name r given =
      let trimmed = trim_space given in if is_empty trimmed then r.client_name else trimmed

  -- `Approve` behind the mint.
  unfoldable pub settle :
      Flow
      → ℕ
      → Request
      → Principal
      → List Str
      → Result Error (Str × Str)
      → Flow × Result Error Approval
  settle f a r by granted (err e) = (f, err e)
  settle f a r by granted (ok (raw, used)) = (
    record f {
      requests = write f.requests a (record r {
        state = approved;
        link = record { token = raw; name = used; account_id = by.account_id };
      });
    },
    ok (record {
      user_code = format r.user_code;
      name = used;
      account_id = by.account_id;
      projects = granted;
    }),
  )

  -- `Approve` for the request that was found.
  unfoldable pub approve_request :
      Flow → Store → ℕ → Request → Principal → Str → List Str → Flow × Store × Result Error Approval
  unfolding mint token_name settle
  approve_request f s a r by given projects = elim (grantable by projects) [
    | err e ↦ (f, s, err e)
    | ok granted ↦
        let (s', minted) = mint (token_name r given) by.account_id granted s in
        let (f', outcome) = settle f a r by granted minted in (f', s', outcome)
  ]

  unfoldable pub approve :
      Unicode
      → Flow
      → Store
      → ℕ
      → Str
      → Principal
      → Str
      → List Str
      → Flow × Store × Result Error Approval
  unfolding approve_request
  approve u f s now code by given projects =
      let (f', found) = decidable u f now code in
      elim found [ err e ↦ (f', s, err e) | ok (a, r) ↦ approve_request f' s a r by given projects ]

  unfoldable pub revoke_token : Store → Str → Store × Result CreateError (Unit {0})
  revoke_token s name = revoke s name
