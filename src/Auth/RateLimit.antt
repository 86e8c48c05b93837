-- ===== src/Auth/RateLimit.antt =====
-- The rate limit of key exchanges: `allowExchange` of mind-palace/server/auth/auth.go over a
-- sequence of requests for one key.
use clued.Base.{
  ℕ, ◌+◌, ◌≤◌, ◌≡◌, refl, ap, subst, ◌∙◌, Bool, true, false, none, List, [], ◌∷◌, ◌++◌, arith, Str,
  str_eq_refl, keep, lookup, lookup-insert, length, length-append, length-keep-le, ltb, ltb→lt,
  if◌then◌else◌, Bool-cases, Option-cases, All, inl, inr,
}
use clued.Auth.Token.{hour, exchanges_per_hour}
use clued.Auth.Load.{TokenFile}
use clued.Auth.Keys.{allow_exchange, recent_of}

-- Less than an hour before `now`.
abbrev pub is_recent : ℕ → ℕ → Bool
is_recent now at = ltb now (at + hour)

-- Requests at the given times, one after the other, and the times at which one was granted.
pub run_requests : Str → TokenFile → List ℕ → TokenFile × List ℕ
run_requests key f [] = (f, [])
run_requests key f (now ∷ times) =
    let (f', allowed) = allow_exchange key now f in
    let (f'', granted) = run_requests key f' times in
    (f'', if allowed then now ∷ granted else granted)

-- The times do not fall, and none is before `start`.
abbrev pub IsClock : ℕ → List ℕ → Type 0
IsClock start [] = Unit {0}
IsClock start (now ∷ times) = (start ≤ now) × IsClock now times

keep-append : (p : ℕ → Bool) (xs ys : List ℕ) → keep p (xs ++ ys) ≡ keep p xs ++ keep p ys
unfolding keep
keep-append p [] ys = refl
keep-append p (x ∷ xs) ys = ground (arith, keep-append p xs ys)

-- What is recent later was recent before.
keep-is_recent :
    (a b : ℕ) (xs : List ℕ)
    → a ≤ b
    → keep (is_recent b) (keep (is_recent a) xs) ≡ keep (is_recent b) xs
unfolding keep
keep-is_recent a b [] h = refl
keep-is_recent a b (x ∷ xs) h = ground (arith, keep-is_recent a b xs h)

recent_of-allow_exchange :
    (key : Str) (now later : ℕ) (f : TokenFile)
    → now ≤ later
    → recent_of later key (allow_exchange key now f).0.exchanges ≡ (
        if (allow_exchange key now f).1
        then recent_of later key f.exchanges ++ keep (is_recent later) (now ∷ [])
        else recent_of later key f.exchanges)
unfolding allow_exchange recent_of
recent_of-allow_exchange key now later f h = elim (Option-cases (lookup key f.exchanges)) [
  | inl m ↦ ground (
    arith,
    lookup-insert key key [] f.exchanges,
    lookup-insert key key (now ∷ []) f.exchanges,
    str_eq_refl key,
  )
  | inr (times, m) ↦
      let recent = keep (is_recent now) times in
      ground (
        arith,
        lookup-insert key key recent f.exchanges,
        lookup-insert key key (recent ++ now ∷ []) f.exchanges,
        str_eq_refl key,
        keep-is_recent now later times h,
        keep-append (is_recent later) recent (now ∷ []),
      )
]

-- The limit over the whole history: a request is granted if fewer than 60 of the requests that
-- were granted before are recent.
pub sliding : List ℕ → List ℕ → List ℕ
sliding past [] = []
sliding past (now ∷ times) =
    let granted = sliding (past ++ now ∷ []) times in
    let refused = sliding past times in
    if ltb (length (keep (is_recent now) past)) exchanges_per_hour then now ∷ granted else refused

-- From `start` on, the times kept for the key are the recent ones of `past`.
abbrev Tracks : Str → ℕ → TokenFile → List ℕ → Type 0
Tracks key start f past =
    (m : ℕ) → start ≤ m → recent_of m key f.exchanges ≡ keep (is_recent m) past

Tracks-granted :
    (key : Str) (start now : ℕ) (f : TokenFile) (past : List ℕ)
    → start ≤ now
    → Tracks key start f past
    → (allow_exchange key now f).1 ≡ true
    → Tracks key now (allow_exchange key now f).0 (past ++ now ∷ [])
Tracks-granted key start now f past h t e m le = ground (
  arith,
  recent_of-allow_exchange key now m f le,
  t m (omega arith),
  keep-append (is_recent m) past (now ∷ []),
)

Tracks-refused :
    (key : Str) (start now : ℕ) (f : TokenFile) (past : List ℕ)
    → start ≤ now
    → Tracks key start f past
    → (allow_exchange key now f).1 ≡ false
    → Tracks key now (allow_exchange key now f).0 past
Tracks-refused key start now f past h t e m le =
    ground (arith, recent_of-allow_exchange key now m f le, t m (omega arith))

allow_exchange_lem :
    (key : Str) (now : ℕ) (f : TokenFile)
    → (allow_exchange key now f).1 ≡ ltb (length (recent_of now key f.exchanges)) exchanges_per_hour
unfolding allow_exchange
allow_exchange_lem key now f = ground arith

run_requests-Tracks :
    (key : Str) (start : ℕ) (f : TokenFile) (past times : List ℕ)
    → Tracks key start f past
    → IsClock start times
    → (run_requests key f times).1 ≡ sliding past times
unfolding run_requests sliding
run_requests-Tracks key start f past [] t c = refl
run_requests-Tracks key start f past (now ∷ times) t c =
    let f' = (allow_exchange key now f).0 in
    elim (Bool-cases (allow_exchange key now f).1) [
      | inl e ↦ ground (
        arith,
        allow_exchange_lem key now f,
        t now c.0,
        run_requests-Tracks key now f' (past ++ now ∷ []) times
            (Tracks-granted key start now f past c.0 t e) c.1,
      )
      | inr e ↦ ground (
        arith,
        allow_exchange_lem key now f,
        t now c.0,
        run_requests-Tracks key now f' past times (Tracks-refused key start now f past c.0 t e) c.1,
      )
    ]

-- For a key with no exchange on record, and a clock that does not go back, the requests that
-- `allowExchange` grants are those that a sliding window over all granted requests grants,
-- though it forgets what is older than an hour.
pub run_requests-sliding :
    (key : Str) (f : TokenFile) (times : List ℕ)
    → lookup key f.exchanges ≡ none
    → IsClock 0 times
    → (run_requests key f times).1 ≡ sliding [] times
unfolding recent_of
run_requests-sliding key f times e c =
    run_requests-Tracks key 0 f [] times (λ m h. unfold keep in ground arith) c

length-is_recent :
    (a b : ℕ) (xs : List ℕ)
    → a ≤ b
    → length (keep (is_recent b) xs) ≤ length (keep (is_recent a) xs)
length-is_recent a b xs h =
    subst (λ l. length l ≤ length (keep (is_recent a) xs)) (keep-is_recent a b xs h)
      (length-keep-le (is_recent b) (keep (is_recent a) xs))

length-keep-append :
    (p : ℕ → Bool) (xs ys : List ℕ)
    → length (keep p (xs ++ ys)) ≡ length (keep p xs) + length (keep p ys)
length-keep-append p xs ys = ap length (keep-append p xs ys) ∙ length-append (keep p xs) (keep p ys)

sliding-recent :
    (start later : ℕ) (past times : List ℕ)
    → ((m : ℕ) → start ≤ m → length (keep (is_recent m) past) ≤ exchanges_per_hour)
    → IsClock start times
    → start ≤ later
    → All (λ t. t ≤ later) times
    → length (keep (is_recent later) past) + length (keep (is_recent later) (sliding past times))
      ≤ exchanges_per_hour
unfolding sliding
sliding-recent start later past [] full c le a = unfold keep in omega (arith, full later le)
sliding-recent start later past (now ∷ times) full c le a =
    elim (Bool-cases (ltb (length (keep (is_recent now) past)) exchanges_per_hour)) [
      | inl e ↦ rw e (
          omega (
            arith,
            length-keep-append (is_recent later) past (now ∷ []),
            length-keep-append (is_recent later) (now ∷ []) (sliding (past ++ now ∷ []) times),
            sliding-recent now later (past ++ now ∷ []) times
                (λ m h. omega (
                  arith,
                  length-is_recent now m past h,
                  length-keep-append (is_recent m) past (now ∷ []),
                  length-keep-le (is_recent m) (now ∷ []),
                  ltb→lt (length (keep (is_recent now) past)) exchanges_per_hour e,
                ))
                c.1 a.0 a.1,
          ))
      | inr e ↦ rw e (sliding-recent now later past times (λ m h. full m (omega arith)) c.1 a.0 a.1)
    ]

-- So within any hour at most 60 requests for the key are granted.
pub run_requests-recent :
    (key : Str) (f : TokenFile) (times : List ℕ) (later : ℕ)
    → lookup key f.exchanges ≡ none
    → IsClock 0 times
    → All (λ t. t ≤ later) times
    → length (keep (is_recent later) (run_requests key f times).1) ≤ exchanges_per_hour
run_requests-recent key f times later e c a = rw (run_requests-sliding key f times e c) (
    omega (
      arith,
      sliding-recent 0 later [] times (λ m h. unfold keep in omega arith) c (omega arith) a,
    ))
