-- ===== src/Device/Codes.antt =====
-- User codes of mind-palace/server/device/device.go: `randomUserCode`, `Format`, `Normalize`.
use clued.Base.{
  ℕ, zero, suc, ◌+◌, ◌-◌, ◌/◌, ◌<◌, ◌≡◌, Bool, false, ◌&&◌, ◌||◌, Option, none, some, List, [], ◌∷◌,
  ◌++◌, map, arith, Str, bytes, length, take, drop, get_elem?, leb, ◌==◌, if◌then◌else◌, All,
  Option-cases, Bool-cases, inl, inr,
}

-- What the package takes from Go's Unicode tables and UTF-8 codec: `strings.ToUpper`, the code
-- points that `range` reads, `unicode.IsLetter(r) || unicode.IsDigit(r)` and `WriteRune`. The
-- laws are their documented behaviour on ASCII.
abbrev pub IsAscii : Str → Type 0
IsAscii s = All (λ c. c < 128) s

abbrev pub upper_char : ℕ → ℕ
upper_char c = if leb b'a' c && leb c b'z' then c - 32 else c

abbrev pub lower_char : ℕ → ℕ
lower_char c = if leb b'A' c && leb c b'Z' then c + 32 else c

abbrev pub is_alnum : ℕ → Bool
is_alnum c = (leb b'0' c && leb c b'9') || (leb b'A' c && leb c b'Z') || (leb b'a' c && leb c b'z')

pub record Unicode : Type 0 where
  pub upper : Str → Str
  pub runes : Str → List ℕ
  pub letter_or_digit : ℕ → Bool
  pub encode : ℕ → Str
  pub upper_ascii : (s : Str) → IsAscii s → upper s ≡ map upper_char s
  pub runes_ascii : (s : Str) → IsAscii s → runes s ≡ s
  pub letter_or_digit_ascii : (c : ℕ) → c < 128 → letter_or_digit c ≡ is_alnum c
  pub encode_ascii : (c : ℕ) → c < 128 → encode c ≡ c ∷ []

abbrev pub user_code_alphabet : Str
user_code_alphabet = bytes "BCDFGHJKMNPQRSTVWXZ23456789"

abbrev pub user_code_len : ℕ
user_code_len = 8

-- The loop of `Normalize`.
unfoldable pub write_runes : Unicode → List ℕ → Str
write_runes u [] = []
write_runes u (r ∷ rs) =
    let rest = write_runes u rs in if u.letter_or_digit r then u.encode r ++ rest else rest

unfoldable pub normalize : Unicode → Str → Str
unfolding write_runes
normalize u code = write_runes u (u.runes (u.upper code))

unfoldable pub format : Str → Str
format norm =
    if length norm == user_code_len
    then take (user_code_len / 2) norm ++ (b'-' ∷ drop (user_code_len / 2) norm)
    else norm

-- `n` letters from the draws at `i` and after; `none` is a failure of the generator, and a draw
-- past the alphabet, which `rand.Int` never gives, counts as one.
unfoldable pub letters : ℕ → ℕ → (ℕ → Option ℕ) → Option Str
letters zero i draw = some []
letters (suc n) i draw =
    let rest = letters n (suc i) draw in
    elim (draw i) [
      | none ↦ none
      | some v ↦ elim (get_elem? user_code_alphabet v) [
        | none ↦ none
        | some c ↦ elim rest [ none ↦ none | some cs ↦ some (c ∷ cs) ]
      ]
    ]

unfoldable pub random_user_code : (ℕ → Option ℕ) → Option Str
unfolding letters
random_user_code draw = letters user_code_len 0 draw

-- The loop of `Start`: the first code that is not taken. The inner `none` is a failure of the
-- generator; the outer says that the fuel ran out.
unfoldable pub draw_user_code : ℕ → ℕ → (ℕ → ℕ → Option ℕ) → (Str → Bool) → Option (Option Str)
draw_user_code zero k draws taken = none
draw_user_code (suc fuel) k draws taken =
    let next = draw_user_code fuel (suc k) draws taken in
    elim (random_user_code (draws k)) [
      | none ↦ some none
      | some code ↦ if taken code then next else some (some code)
    ]

-- The code that the loop settles on is not taken.
pub draw_user_code_free :
    (fuel k : ℕ) (draws : ℕ → ℕ → Option ℕ) (taken : Str → Bool) (code : Str)
    → draw_user_code fuel k draws taken ≡ some (some code)
    → taken code ≡ false
unfolding draw_user_code
draw_user_code_free zero k draws taken code e = cc
draw_user_code_free (suc fuel) k draws taken code e =
    elim (Option-cases (random_user_code (draws k))) [
      | inl m ↦ absurd (ground arith)
      | inr (drawn, m) ↦ elim (Bool-cases (taken drawn)) [
        | inl t ↦ draw_user_code_free fuel (suc k) draws taken code (ground arith)
        | inr t ↦ ground arith
      ]
    ]
