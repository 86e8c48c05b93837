-- ===== src/Device/Handover.antt =====
-- How a token reaches its client: `Approve`, `Deny` and `Poll` of
-- mind-palace/server/device/device.go one after the other.
use clued.Base.{
  ℕ, zero, suc, ◌<◌, ◌≡◌, refl, sym, ap, subst, ◌∙◌, Bool-cases, not, ◌||◌, true, false, none, some,
  List, [], arith, Str, is_empty, trim_space, lookup, ltb, Result-cases, inl, inr, ◌⊎◌, Result, ok,
  err,
}
use clued.Auth.Token.{Principal}
use clued.Auth.Projects.{clean_projects, allow_project}
use clued.Device.Codes.{Unicode, normalize}
use clued.Device.Tokens.{Tokens, CreateError, exists, failed}
use clued.Device.Flow.{
  Flow, Request, Link, pending, approved, Error, write, find, poll, decidable, deny, is_pending,
  invalid_grant, decided,
}
use clued.Device.Grantable.{grantable, grantable-clean_projects}
use clued.Device.Approval.{
  Approval, approve, approve_request, settle, mint, mint_from, numbered, token_name,
}
use clued.Device.Invariant.{Coherent, Located}
use clued.Device.Calls.{decidable-IsDecidable}
use clued.Device.Answers.{
  polled_lately, answer, stays, poll-answer, find_user-Located_lem, poll_unknown,
}

-- The flow after a decision: the request at the address has the new state and link.
abbrev pub settled : Flow → ℕ → Request → Flow
settled f a r' = record f { requests = write f.requests a r' }

settled-Located :
    (f : Flow) (a : ℕ) (r r' : Request)
    → Located f a r
    → r'.device_code ≡ r.device_code
    → r'.user_code ≡ r.user_code
    → Located (settled f a r') a r'
settled-Located f a r r' (at, d, w) de ue = (ground arith, rw de d, rw ue w)

-- A request that is not pending cannot be decided: the call fails, and if it failed because the
-- request is decided nothing changed.
decidable_decided :
    (u : Unicode) (f : Flow) (now a : ℕ) (r : Request) (code : Str)
    → Located f a r
    → is_pending r.state ≡ false
    → ltb now r.expires ≡ true
    → normalize u code ≡ r.user_code
    → decidable u f now code ≡ (f, err decided)
unfolding decidable
decidable_decided u f now a r code l s live e =
    let found : find f f.by_user (normalize u code) ≡ some (a, r) =
      rw e (find_user-Located_lem f a r l) in
    rw (found, decidable) (ground arith)

CreateError-cases : (e : CreateError) → (e ≡ exists) ⊎ (e ≡ failed)
CreateError-cases exists = inl refl
CreateError-cases failed = inr refl

module _ (T : Tokens) where
  open T use {Store, Grants, create, create_Grants}

  -- What the token stands for.
  abbrev pub principal_for : Str → Str → List Str → Principal
  principal_for name account_id projects = record {
    name = trim_space name;
    account_id = account_id;
    projects = clean_projects [] projects;
  }

  mint_from-Grants :
      (rounds i : ℕ) (used name account_id : Str) (projects : List Str) (s s' : Store)
      (raw final : Str)
      → is_empty account_id ≡ false
      → mint_from T rounds i used name account_id projects s ≡ (s', ok (raw, final))
      → Grants s' raw (principal_for final account_id projects)
  unfolding mint_from
  mint_from-Grants zero i used name account_id projects s s' raw final full e = cc
  mint_from-Grants (suc rounds) i used name account_id projects s s' raw final full e =
      let tried = create s used account_id projects in
      elim (Result-cases tried.1) [
        | inl (r, q) ↦
            let store : tried.0 ≡ s' = ground arith in
            let text : r ≡ raw = ground arith in
            let label : used ≡ final = ground arith in
            let granted : Grants tried.0 r (principal_for used account_id projects) =
              create_Grants s tried.0 used account_id r projects (ground arith) full in
            subst (λ (n : Str). Grants s' raw (principal_for n account_id projects)) label
              (subst (λ (x : Str). Grants s' x (principal_for used account_id projects)) text
                (subst (λ (x : Store). Grants x r (principal_for used account_id projects)) store
                  granted))
        | inr (problem, q) ↦ elim (CreateError-cases problem) [
          | inr broken ↦ absurd (ground arith)
          | inl taken ↦
              mint_from-Grants rounds (suc i) (numbered name i) name account_id projects tried.0 s'
                raw final full (ground arith)
        ]
      ]

  -- The request as an `Approve` leaves it.
  abbrev pub linked : Str → Principal → Approval → Request → Request
  linked raw by outcome r = record r {
    state = approved;
    link = record { token = raw; name = outcome.name; account_id = by.account_id };
  }

  -- An `Approve` that succeeded, taken apart.
  pub record Approves (f : Flow) (now : ℕ) (by : Principal) (projects : List Str) (code : Str)
      (f' : Flow) (s' : Store) (outcome : Approval) : Type 0 where
    pub address : ℕ
    pub request : Request
    pub raw : Str
    pub located : Located f address request
    pub was_pending : request.state ≡ pending
    pub live : ltb now request.expires ≡ true
    pub named : request.user_code ≡ code
    pub granted : grantable by projects ≡ ok outcome.projects
    pub minted :
        is_empty by.account_id ≡ false
        → Grants s' raw (principal_for outcome.name by.account_id outcome.projects)
    pub result : f' ≡ settled f address (linked raw by outcome request)

  approve_request-Approves :
      (f : Flow) (s : Store) (a : ℕ) (r : Request) (by : Principal) (given : Str)
      (projects : List Str) (f' : Flow) (s' : Store) (outcome : Approval)
      → approve_request T f s a r by given projects ≡ (f', s', ok outcome)
      → (raw : Str) × (grantable by projects ≡ ok outcome.projects)
        × (is_empty by.account_id ≡ false
            → Grants s' raw (principal_for outcome.name by.account_id outcome.projects))
        × (f' ≡ settled f a (linked raw by outcome r))
  unfolding approve_request settle mint
  approve_request-Approves f s a r by given projects f' s' outcome e =
      elim (Result-cases (grantable by projects)) [
        | inr (problem, g) ↦ absurd (ground arith)
        | inl (granted, g) ↦
            let name = token_name T r given in
            let minted = mint_from T 49 2 name name by.account_id granted s in
            elim (Result-cases minted.1) [
              | inr (problem, m) ↦ absurd (ground arith)
              | inl ((raw, used), m) ↦
                  let eq : granted ≡ outcome.projects = ground arith in
                  let store : minted.0 ≡ s' = ground arith in
                  let uname : used ≡ outcome.name = ground arith in
                  (
                    raw,
                    ground arith,
                    λ full.
                        let here : mint_from T 49 2 name name by.account_id granted s
                            ≡ (s', ok (raw, used)) =
                          ground arith in
                        subst
                          (λ (n : Str).
                            Grants s' raw (principal_for n by.account_id outcome.projects))
                          uname
                          (subst
                            (λ (ps : List Str). Grants s' raw (principal_for used by.account_id ps))
                            eq
                            (mint_from-Grants 49 2 name name by.account_id granted s s' raw used
                              full here)),
                    ground arith,
                  )
            ]
      ]

  pub approve-Approves :
      (u : Unicode) (f : Flow) (s : Store) (now : ℕ) (code : Str) (by : Principal) (given : Str)
      (projects : List Str) (f' : Flow) (s' : Store) (outcome : Approval)
      → Coherent f
      → approve T u f s now code by given projects ≡ (f', s', ok outcome)
      → Approves f now by projects (normalize u code) f' s' outcome
  unfolding approve
  approve-Approves u f s now code by given projects f' s' outcome c e =
      let g : Flow = (decidable u f now code).0 in
      elim (Result-cases (decidable u f now code).1) [
        | inr (problem, q) ↦ absurd (ground arith)
        | inl ((a, r), q) ↦
            let ((same, l, open_still, live), named) =
              decidable-IsDecidable u f g now code a r c (ground arith) in
            let (raw, granted, minted, result) =
              approve_request-Approves g s a r by given projects f' s' outcome (ground arith) in
            record {
              address = a;
              request = r;
              raw = raw;
              located = l;
              was_pending = open_still;
              live = live;
              named = named;
              granted = granted;
              minted = minted;
              result = subst (λ (x : Flow). f' ≡ settled x a (linked raw by outcome r)) same result;
            }
      ]

  -- The located request with the code is the one that was approved.
  approved_request :
      (f : Flow) (now a : ℕ) (r : Request) (by : Principal) (projects : List Str) (code : Str)
      (f' : Flow) (s' : Store) (outcome : Approval)
      → Located f a r
      → r.user_code ≡ code
      → Approves f now by projects code f' s' outcome
      → (raw : Str) × (f' ≡ settled f a (linked raw by outcome r))
        × (is_empty by.account_id ≡ false
            → Grants s' raw (principal_for outcome.name by.account_id outcome.projects))
  approved_request f now a r by projects code f' s' outcome l named v =
      let codes : v.request.user_code ≡ r.user_code = v.named ∙ sym named in
      let there : lookup r.user_code f.by_user ≡ some v.address =
        subst (λ (c : Str). lookup c f.by_user ≡ some v.address) codes v.located.2 in
      let address : v.address ≡ a = ground arith in
      let request : v.request ≡ r = ground arith in
      (
        v.raw,
        subst (λ (b : ℕ). f' ≡ settled f b (linked v.raw by outcome r)) address
            (subst (λ (q : Request). f' ≡ settled f v.address (linked v.raw by outcome q)) request
              v.result),
        v.minted,
      )

  -- After an `Approve` of its user code by an approver whose account is not empty, a client that
  -- polls before its request expires, and not too fast, receives a link with the approver's account
  -- and the reported name. The token of the link authenticates as the reported name without the
  -- white space around it, in that account, for the granted projects as cleanProjects leaves them.
  -- Whoever polls with the device code after that is told that it is unknown.
  pub poll-approve :
      (u : Unicode) (f : Flow) (s : Store) (now later after a : ℕ) (r : Request) (code : Str)
      (by : Principal) (given : Str) (projects : List Str) (f' : Flow) (s' : Store)
      (outcome : Approval)
      → Coherent f
      → Located f a r
      → r.user_code ≡ normalize u code
      → is_empty by.account_id ≡ false
      → approve T u f s now code by given projects ≡ (f', s', ok outcome)
      → later < r.expires
      → polled_lately f later r ≡ false
      → (raw : Str) × ((poll f' later r.device_code).1
          ≡ ok (record { token = raw; name = outcome.name; account_id = by.account_id }))
        × Grants s' raw (principal_for outcome.name by.account_id outcome.projects)
        × ((poll (poll f' later r.device_code).0 after r.device_code).1 ≡ err invalid_grant)
  unfolding answer stays polled_lately is_pending
  poll-approve u f s now later after a r code by given projects f' s' outcome c l named full e soon
        slow =
      let v = approve-Approves u f s now code by given projects f' s' outcome c e in
      let (raw, result, minted) =
        approved_request f now a r by projects (normalize u code) f' s' outcome l named v in
      let r' : Request = linked raw by outcome r in
      let g : Flow = settled f a r' in
      let (told, gone) = poll-answer g later a r' (settled-Located f a r r' l refl refl) in
      let unknown : find (poll g later r.device_code).0 (poll g later r.device_code).0.by_device
            r.device_code
          ≡ none =
        ground arith in
      rw result (
        raw,
        ground arith,
        minted full,
        ap (λ (x : Flow × Result Error Link). x.1)
            (poll_unknown (poll g later r.device_code).0 after r.device_code unknown),
      )

  -- The token that an `Approve` mints for the request with its user code covers nothing that the
  -- approver may not touch. It is the token of the request's link, and it authenticates as the
  -- reported name without the white space around it, in the approver's account, for the reported
  -- projects as cleanProjects leaves them; of any slug, if that principal may touch it, the approver
  -- may. The approver's account is not empty, and its own list is as cleanProjects leaves it.
  pub approve-allow_project :
      (u : Unicode) (f : Flow) (s : Store) (now a : ℕ) (r : Request) (code : Str) (by : Principal)
      (given : Str) (projects : List Str) (f' : Flow) (s' : Store) (outcome : Approval) (slug : Str)
      → Coherent f
      → Located f a r
      → r.user_code ≡ normalize u code
      → is_empty by.account_id ≡ false
      → clean_projects [] by.projects ≡ by.projects
      → approve T u f s now code by given projects ≡ (f', s', ok outcome)
      → (raw : Str) × (f' ≡ settled f a (linked raw by outcome r))
        × Grants s' raw (principal_for outcome.name by.account_id outcome.projects)
        × ((not (allow_project (principal_for outcome.name by.account_id outcome.projects) slug)
              || allow_project by slug)
            ≡ true)
  approve-allow_project u f s now a r code by given projects f' s' outcome slug c l named full clean
        e =
      let v = approve-Approves u f s now code by given projects f' s' outcome c e in
      let (raw, result, minted) =
        approved_request f now a r by projects (normalize u code) f' s' outcome l named v in
      let who = principal_for outcome.name by.account_id outcome.projects in
      (
        raw,
        result,
        minted full,
        elim (Bool-cases (allow_project who slug)) [
          | inl may ↦
              let passed =
                grantable-clean_projects by who projects outcome.projects slug clean v.granted refl
                  may in
              ground arith
          | inr may_not ↦ ground arith
        ],
      )

  -- A decision is final: after an `Approve`, and until the request expires, `Approve` and `Deny`
  -- with its user code are refused as decided and change neither the flow nor the token store.
  pub approve-decided :
      (u : Unicode) (f : Flow) (s : Store) (now later a : ℕ) (r : Request) (code again : Str)
      (by by' : Principal) (given given' : Str) (projects projects' : List Str) (f' : Flow)
      (s' : Store) (outcome : Approval)
      → Coherent f
      → Located f a r
      → r.user_code ≡ normalize u code
      → normalize u again ≡ r.user_code
      → approve T u f s now code by given projects ≡ (f', s', ok outcome)
      → later < r.expires
      → (approve T u f' s' later again by' given' projects' ≡ (f', s', err decided))
        × (deny u f' later again ≡ (f', err decided))
  unfolding approve deny is_pending
  approve-decided u f s now later a r code again by by' given given' projects projects' f' s'
        outcome c l named same e soon =
      let v = approve-Approves u f s now code by given projects f' s' outcome c e in
      let (raw, result, minted) =
        approved_request f now a r by projects (normalize u code) f' s' outcome l named v in
      let r' : Request = linked raw by outcome r in
      let refused =
        decidable_decided u (settled f a r') later a r' again (settled-Located f a r r' l refl refl)
          refl (ground arith) same in
      rw result (ground (arith, refused), ground (arith, refused))
