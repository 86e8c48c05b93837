-- ===== src/Device/Spelling.antt =====
-- User codes of mind-palace/server/device/device.go survive being shown and typed again.
use clued.Base.{
  ℕ, zero, suc, ◌+◌, ◌<◌, ◌≤◌, ◌≡◌, ◌≢◌, refl, sym, ap, subst, ◌∙◌, Bool, true, false, ◌||◌, ◌&&◌,
  Option, none, some, List, [], ◌∷◌, ◌++◌, map, arith, Str, length, take, drop, get_elem?, leb,
  ◌==◌, All, Bool-cases, Option-cases, inl, inr,
}
use mathlib.Core.Option.{some-injective}
use clued.Device.Codes.{
  Unicode, IsAscii, upper_char, lower_char, is_alnum, normalize, write_runes, format, user_code_len,
  random_user_code, draw_user_code, letters, user_code_alphabet,
}

-- What a user code is made of: capitals and digits.
abbrev pub IsCodeChar : ℕ → Type 0
IsCodeChar c = ((leb b'0' c && leb c b'9') || (leb b'A' c && leb c b'Z')) ≡ true

-- What may be typed between or for them: the same letter, in lower case, or a hyphen.
pub data Typed : Str → Str → Type 0 where
  done : Typed [] []
  same : (c : ℕ) {code typed : Str} → Typed code typed → Typed (c ∷ code) (c ∷ typed)
  lowered : (c : ℕ) {code typed : Str} → Typed code typed → Typed (c ∷ code) (lower_char c ∷ typed)
  hyphen : {code typed : Str} → Typed code typed → Typed code (b'-' ∷ typed)
  blank : {code typed : Str} → Typed code typed → Typed code (b' ' ∷ typed)

Typed-IsAscii : {code typed : Str} → Typed code typed → All IsCodeChar code → IsAscii typed
Typed-IsAscii done a = tt
Typed-IsAscii (same c t) a = (ground arith, Typed-IsAscii t a.1)
Typed-IsAscii (lowered c t) a = (ground arith, Typed-IsAscii t a.1)
Typed-IsAscii (hyphen t) a = (omega arith, Typed-IsAscii t a)
Typed-IsAscii (blank t) a = (omega arith, Typed-IsAscii t a)

upper-IsAscii : (s : Str) → IsAscii s → IsAscii (map upper_char s)
upper-IsAscii [] a = tt
upper-IsAscii (c ∷ s) a = (ground arith, upper-IsAscii s a.1)

module _ (u : Unicode) where
  write_runes_kept :
      (c : ℕ) (s : Str) → c < 128 → is_alnum c ≡ true → write_runes u (c ∷ s) ≡ c ∷ write_runes u s
  unfolding write_runes
  write_runes_kept c s low e = rw (u.letter_or_digit_ascii c low ∙ e, u.encode_ascii c low) refl

  write_runes_dropped :
      (c : ℕ) (s : Str) → c < 128 → is_alnum c ≡ false → write_runes u (c ∷ s) ≡ write_runes u s
  unfolding write_runes
  write_runes_dropped c s low e = rw (u.letter_or_digit_ascii c low ∙ e) refl

  write_runes-Typed :
      {code typed : Str}
      → Typed code typed
      → All IsCodeChar code
      → write_runes u (map upper_char typed) ≡ code
  write_runes-Typed done a = unfold write_runes in refl
  write_runes-Typed (same c {code} {typed} t) a =
      let up : upper_char c ≡ c = ground arith in
      rw up (
        write_runes_kept c (map upper_char typed) (ground arith) (ground arith)
        ∙ ap (◌∷◌ c) (write_runes-Typed t a.1))
  write_runes-Typed (lowered c {code} {typed} t) a =
      let up : upper_char (lower_char c) ≡ c = ground arith in
      rw up (
        write_runes_kept c (map upper_char typed) (ground arith) (ground arith)
        ∙ ap (◌∷◌ c) (write_runes-Typed t a.1))
  write_runes-Typed (hyphen {code} {typed} t) a =
      write_runes_dropped b'-' (map upper_char typed) (omega arith) refl ∙ write_runes-Typed t a
  write_runes-Typed (blank {code} {typed} t) a =
      write_runes_dropped b' ' (map upper_char typed) (omega arith) refl ∙ write_runes-Typed t a

  -- However a code of capitals and digits is typed, in either case and with hyphens and spaces
  -- anywhere, `Normalize` gives the code back.
  pub normalize-Typed :
      (code typed : Str) → Typed code typed → All IsCodeChar code → normalize u typed ≡ code
  unfolding normalize
  normalize-Typed code typed t a =
      let ascii = Typed-IsAscii t a in
      rw
        (
          u.upper_ascii typed ascii,
          u.runes_ascii (map upper_char typed) (upper-IsAscii typed ascii),
        )
        (write_runes-Typed t a)

Typed-refl : (code : Str) → Typed code code
Typed-refl [] = done
Typed-refl (c ∷ code) = same c (Typed-refl code)

Typed-append : (xs : Str) {code typed : Str} → Typed code typed → Typed (xs ++ code) (xs ++ typed)
Typed-append [] t = t
Typed-append (x ∷ xs) t = same x (Typed-append xs t)

take-append-drop : (n : ℕ) (xs : Str) → take n xs ++ drop n xs ≡ xs
take-append-drop zero xs = refl
take-append-drop (suc n) [] = refl
take-append-drop (suc n) (x ∷ xs) = ap (◌∷◌ x) (take-append-drop n xs)

-- A code as `Format` shows it is one way to type it.
pub format-Typed : (code : Str) → Typed code (format code)
unfolding format
format-Typed code = elim (Bool-cases (length code == user_code_len)) [
  | inr other ↦ rw other (Typed-refl code)
  | inl eight ↦ rw eight (
      subst (λ s. Typed s (take 4 code ++ (b'-' ∷ drop 4 code))) (take-append-drop 4 code)
        (Typed-append (take 4 code) (hyphen (Typed-refl (drop 4 code)))))
]

get_elem?-All {ℓ κ} :
    {A : Type ℓ} (P : A → Type κ) (xs : List A) (i : ℕ) (a : A)
    → All P xs
    → get_elem? xs i ≡ some a
    → P a
get_elem?-All P [] i a h e = absurd (ground arith)
get_elem?-All P (x ∷ xs) zero a h e = subst P (some-injective _ _ e) h.0
get_elem?-All P (x ∷ xs) (suc i) a h e = get_elem?-All P xs i a h.1 e

all_code_chars : Str → Bool
all_code_chars [] = true
all_code_chars (c ∷ s) =
    ((leb b'0' c && leb c b'9') || (leb b'A' c && leb c b'Z')) && all_code_chars s

all_code_chars-All : (s : Str) → all_code_chars s ≡ true → All IsCodeChar s
unfolding all_code_chars
all_code_chars-All [] e = tt
all_code_chars-All (c ∷ s) e = (ground arith, all_code_chars-All s (ground arith))

alphabet-IsCodeChar : All IsCodeChar user_code_alphabet
unfolding all_code_chars
alphabet-IsCodeChar = all_code_chars-All user_code_alphabet refl

letters-IsCodeChar :
    (n i : ℕ) (draw : ℕ → Option ℕ) (code : Str)
    → letters n i draw ≡ some code
    → All IsCodeChar code × (length code ≡ n)
unfolding letters
letters-IsCodeChar zero i draw code e =
    let eq : [] ≡ code = some-injective _ _ e in (subst (All IsCodeChar) eq tt, sym (ap length eq))
letters-IsCodeChar (suc n) i draw code e = elim (Option-cases (draw i)) [
  | inl m ↦ absurd (ground arith)
  | inr (v, m) ↦ elim (Option-cases (get_elem? user_code_alphabet v)) [
    | inl k ↦ absurd (ground arith)
    | inr (c, k) ↦ elim (Option-cases (letters n (suc i) draw)) [
      | inl o ↦ absurd (ground arith)
      | inr (cs, o) ↦
          let (chars, size) = letters-IsCodeChar n (suc i) draw cs o in
          let eq : c ∷ cs ≡ code = ground arith in
          (
            subst (All IsCodeChar) eq
                (get_elem?-All IsCodeChar user_code_alphabet v c alphabet-IsCodeChar k, chars),
            sym (ap length eq) ∙ ap suc size,
          )
    ]
  ]
]

-- What `Start` shows for a code that it drew, `Approve` and `Deny` read as that code.
pub normalize-format :
    (u : Unicode) (draw : ℕ → Option ℕ) (code : Str)
    → random_user_code draw ≡ some code
    → (normalize u (format code) ≡ code) × (length code ≡ user_code_len)
unfolding random_user_code
normalize-format u draw code e =
    let (chars, size) = letters-IsCodeChar user_code_len 0 draw code e in
    (normalize-Typed u code (format code) (format-Typed code) chars, size)

-- The loop of `Start` ends as soon as a round draws a free code, or fails to draw: with more fuel
-- than such a round's number it returns.
pub draw_user_code_ends :
    (fuel k n : ℕ) (draws : ℕ → ℕ → Option ℕ) (taken : Str → Bool)
    → k ≤ n
    → n < k + fuel
    → ((code : Str) → random_user_code (draws n) ≡ some code → taken code ≡ false)
    → (drawn : Option Str) × (draw_user_code fuel k draws taken ≡ some drawn)
unfolding draw_user_code
draw_user_code_ends zero k n draws taken low high free = absurd (omega arith)
draw_user_code_ends (suc fuel) k n draws taken low high free =
    elim (Option-cases (random_user_code (draws k))) [
      | inl m ↦ (none, ground arith)
      | inr (code, m) ↦ elim (Bool-cases (taken code)) [
        | inr untaken ↦ (some code, ground arith)
        | inl used ↦
            let apart : k ≢ n = λ q.
              let drawn_free =
                free code (subst (λ x. random_user_code (draws x) ≡ some code) q m) in
              cc in
            let later : suc k ≤ n = omega arith in
            let (drawn, e) =
              draw_user_code_ends fuel (suc k) n draws taken later (omega arith) free in
            (drawn, ground arith)
      ]
    ]
