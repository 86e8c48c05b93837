-- ===== src/Device/Invariant.antt =====
-- The two maps of a `Flow` (mind-palace/server/device/device.go) hold the same requests.
use clued.Base.{
  ℕ, ◌+◌, ◌≤◌, ◌≡◌, sym, ap, subst, ◌∙◌, ◌≢◌, inl, inr, false, Option, none, some, List, [], ◌∷◌,
  arith, Str, str_eq, str_eq_iff, lookup, insert, delete, lookup-insert_self, lookup-insert_ne,
  lookup-delete_ne, lookup-delete-some, ◌==◌, ltb, Bool-cases, Option-cases,
}
use clued.Device.Flow.{Flow, Request, write, find, remove, prune, prune_from, prune_code, new_flow}

ne_of_str_eq : (s t : Str) → str_eq s t ≡ false → s ≢ t
ne_of_str_eq s t h e = ground (arith, str_eq_iff s t)

-- Each code of a map leads to an allocated request that has it, and the other map leads from the
-- request's other code to the same address. `bound` is the last address in use.
abbrev pub Side :
    (ℕ → Option Request)
    → ℕ
    → (Request → Str)
    → (Request → Str)
    → List (Str × ℕ)
    → List (Str × ℕ)
    → Type 0
Side requests bound key other codes others =
    (code : Str) (a : ℕ)
    → lookup code codes ≡ some a
    → (r : Request) × (requests a ≡ some r)
      × (key r ≡ code)
      × (lookup (other r) others ≡ some a)
      × (a ≤ bound)

abbrev pub device_code_of : Request → Str
device_code_of r = r.device_code

abbrev pub user_code_of : Request → Str
user_code_of r = r.user_code

pub record Coherent (f : Flow) : Type 0 where
  pub device_side : Side f.requests f.started device_code_of user_code_of f.by_device f.by_user
  pub user_side : Side f.requests f.started user_code_of device_code_of f.by_user f.by_device

module _ (requests : ℕ → Option Request) (bound : ℕ) (key other : Request → Str)
    (codes others : List (Str × ℕ)) (side : Side requests bound key other codes others) where
  -- Rewriting a request in place, its codes kept.
  write-Side :
      (a : ℕ) (r r' : Request)
      → requests a ≡ some r
      → key r' ≡ key r
      → other r' ≡ other r
      → Side (write requests a r') bound key other codes others
  write-Side a r r' at k o code b e =
      let (s, found, code', there, low) = side code b e in
      elim (Bool-cases (a == b)) [
        | inl same ↦
            let eq : r ≡ s = ground arith in
            (r', ground arith, k ∙ ap key eq ∙ code', rw (o ∙ ap other eq) there, low)
        | inr apart ↦ (s, ground arith, code', there, low)
      ]

  delete-Side :
      (a : ℕ) (r : Request)
      → requests a ≡ some r
      → lookup (other r) others ≡ some a
      → Side requests bound key other (delete (key r) codes) (delete (other r) others)
  delete-Side a r at o code b e =
      let (apart, kept) = lookup-delete-some (key r) code b codes e in
      let (s, found, code', there, low) = side code b kept in
      elim (Bool-cases (str_eq (other r) (other s))) [
        | inr others_apart ↦
            (s, found, code', lookup-delete_ne (other r) (other s) others others_apart ∙ there, low)
        | inl same ↦
            let eq : other r ≡ other s = (str_eq_iff (other r) (other s)).0 same in
            let here : lookup (other s) others ≡ some a =
              subst (λ c. lookup c others ≡ some a) eq o in
            let addresses : a ≡ b = ground arith in
            let requests_eq : r ≡ s = ground arith in
            absurd (ne_of_str_eq (key r) code apart (ap key requests_eq ∙ code'))
      ]

  pub insert-Side :
      (r : Request)
      → lookup (other r) others ≡ none
      → Side
          (write requests (bound + 1) r)
          (bound + 1)
          key
          other
          (insert (key r) (bound + 1) codes)
          (insert (other r) (bound + 1) others)
  insert-Side r fresh code b e = elim (Bool-cases (str_eq (key r) code)) [
    | inl same ↦
        let eq : key r ≡ code = (str_eq_iff (key r) code).0 same in
        let here : some (bound + 1) ≡ some b =
          sym (
            subst (λ c. lookup c (insert (key r) (bound + 1) codes) ≡ some (bound + 1)) eq
              (lookup-insert_self (key r) (bound + 1) codes))
          ∙ e in
        let address : bound + 1 ≡ b = ground arith in
        (r, ground arith, eq, lookup-insert_self (other r) (bound + 1) others ∙ here, omega arith)
    | inr apart ↦
        let kept : lookup code codes ≡ some b =
          sym (lookup-insert_ne (key r) code (bound + 1) codes apart) ∙ e in
        let (s, found, code', there, low) = side code b kept in
        elim (Bool-cases (str_eq (other r) (other s))) [
          | inl same ↦
              let eq : other r ≡ other s = (str_eq_iff (other r) (other s)).0 same in
              let here : lookup (other s) others ≡ none =
                subst (λ c. lookup c others ≡ none) eq fresh in
              cc
          | inr others_apart ↦ (
            s,
            ground arith,
            code',
            lookup-insert_ne (other r) (other s) (bound + 1) others others_apart ∙ there,
            omega arith,
          )
        ]
  ]

-- A request, and its address under both of its codes.
abbrev pub Located : Flow → ℕ → Request → Type 0
Located f a r =
    (f.requests a ≡ some r)
    × (lookup r.device_code f.by_device ≡ some a)
    × (lookup r.user_code f.by_user ≡ some a)

pub find-some :
    (f : Flow) (codes : List (Str × ℕ)) (code : Str) (a : ℕ) (r : Request)
    → find f codes code ≡ some (a, r)
    → (lookup code codes ≡ some a) × (f.requests a ≡ some r)
unfolding find
find-some f codes code a r e = elim (Option-cases (lookup code codes)) [
  | inl m ↦ absurd (ground arith)
  | inr (b, m) ↦ elim (Option-cases (f.requests b)) [
    | inl n ↦ absurd (ground arith)
    | inr (s, n) ↦ (ground arith, ground arith)
  ]
]

module _ (f : Flow) (c : Coherent f) where
  pub find_device-Located :
      (code : Str) (a : ℕ) (r : Request)
      → find f f.by_device code ≡ some (a, r)
      → Located f a r × (r.device_code ≡ code)
  find_device-Located code a r e =
      let (there, at) = find-some f f.by_device code a r e in
      let (s, found, code', other, low) = c.device_side code a there in
      let eq : s ≡ r = ground arith in
      let same : r.device_code ≡ code = ap device_code_of (sym eq) ∙ code' in
      (
        (
          at,
          rw same there,
          subst (λ (q : Request). lookup q.user_code f.by_user ≡ some a) eq other,
        ),
        same,
      )

  pub find_user-Located :
      (code : Str) (a : ℕ) (r : Request)
      → find f f.by_user code ≡ some (a, r)
      → Located f a r × (r.user_code ≡ code)
  find_user-Located code a r e =
      let (there, at) = find-some f f.by_user code a r e in
      let (s, found, code', other, low) = c.user_side code a there in
      let eq : s ≡ r = ground arith in
      let same : r.user_code ≡ code = ap user_code_of (sym eq) ∙ code' in
      (
        (
          at,
          subst (λ (q : Request). lookup q.device_code f.by_device ≡ some a) eq other,
          rw same there,
        ),
        same,
      )

  pub write-Coherent :
      (a : ℕ) (r r' : Request)
      → f.requests a ≡ some r
      → r'.device_code ≡ r.device_code
      → r'.user_code ≡ r.user_code
      → Coherent (record f { requests = write f.requests a r' })
  write-Coherent a r r' at d u = record {
    device_side = write-Side _ _ _ _ _ _ c.device_side a r r' at d u;
    user_side = write-Side _ _ _ _ _ _ c.user_side a r r' at u d;
  }

  pub remove-Coherent : (a : ℕ) (r : Request) → Located f a r → Coherent (remove f r)
  unfolding remove
  remove-Coherent a r (at, d, u) = record {
    device_side = delete-Side _ _ _ _ _ _ c.device_side a r at u;
    user_side = delete-Side _ _ _ _ _ _ c.user_side a r at d;
  }

pub prune_code-Coherent :
    (now : ℕ) (code : Str) (f : Flow) → Coherent f → Coherent (prune_code now code f)
unfolding prune_code
prune_code-Coherent now code f c = elim (Option-cases (find f f.by_device code)) [
  | inl m ↦ rw (m, prune_code) c
  | inr ((a, r), m) ↦
      let gone = remove-Coherent f c a r (find_device-Located f c code a r m).0 in
      rw (m, prune_code)
        (elim (Bool-cases (ltb now r.expires)) [ inl e ↦ rw e c | inr e ↦ rw e gone ])
]

pub prune_from-Coherent :
    (now : ℕ) (entries : List (Str × ℕ)) (f : Flow)
    → Coherent f
    → Coherent (prune_from now entries f)
unfolding prune_from
prune_from-Coherent now [] f c = c
prune_from-Coherent now ((code, a) ∷ entries) f c =
    prune_from-Coherent now entries (prune_code now code f) (prune_code-Coherent now code f c)

pub prune-Coherent : (now : ℕ) (f : Flow) → Coherent f → Coherent (prune now f)
unfolding prune
prune-Coherent now f c = prune_from-Coherent now f.by_device f c

pub new_flow-Coherent : (ttl interval : ℕ) → Coherent (new_flow ttl interval)
unfolding new_flow lookup
new_flow-Coherent ttl interval = record {
  device_side = λ code a e. absurd (ground arith);
  user_side = λ code a e. absurd (ground arith);
}
