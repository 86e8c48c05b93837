-- ===== src/Base/Text.antt =====
-- A Go string is its list of bytes. Comparison, `strings.TrimSpace` over the UTF-8 encoding of
-- every white space code point, and `strings.ContainsAny` for ASCII sets.
use Prim.Native.Nat.{ℕ, zero, suc, ◌+◌, ◌/◌, ◌%◌}
use Prim.Native.Char.{code}
use Prim.Native.String.{String}
use mathlib.Core.Path.{◌≡◌, refl}
use mathlib.Core.Logic.{◌↔◌}
use mathlib.Core.Bool.{Bool, true, false, ◌&&◌, ◌||◌}
use mathlib.Core.List.{List, [], ◌∷◌, ◌++◌, reverse}
use native.Mathlib.Omega.{arith}
use clued.Base.Tests.{◌==◌, ltb, leb, if◌then◌else◌}
use clued.Base.Lists.{any}

abbrev pub Str : Type 0
Str = List ℕ

-- The bytes of an ASCII literal.
abbrev pub bytes : String → Str
bytes String.[] = []
bytes (String.◌∷◌ c s) = code c ∷ bytes s

unfoldable pub str_eq : Str → Str → Bool
str_eq [] [] = true
str_eq [] (b ∷ t) = false
str_eq (a ∷ s) [] = false
str_eq (a ∷ s) (b ∷ t) = (a == b) && str_eq s t

pub str_eq→eq : (s t : Str) → str_eq s t ≡ true → s ≡ t
unfolding str_eq
str_eq→eq [] [] h = refl
str_eq→eq [] (b ∷ t) h = cc
str_eq→eq (a ∷ s) [] h = cc
str_eq→eq (a ∷ s) (b ∷ t) h = ground (arith, str_eq→eq s t)

pub str_eq_refl : (s : Str) → str_eq s s ≡ true
unfolding str_eq
str_eq_refl [] = refl
str_eq_refl (a ∷ s) = ground (arith, str_eq_refl s)

pub str_eq_iff : (s t : Str) → (str_eq s t ≡ true) ↔ (s ≡ t)
str_eq_iff s t = (str_eq→eq s t, λ e. rw e (str_eq_refl t))

abbrev pub is_empty : Str → Bool
is_empty [] = true
is_empty (a ∷ s) = false

-- Go's `a < b` on strings: by bytes.
unfoldable pub str_lt : Str → Str → Bool
str_lt [] [] = false
str_lt [] (b ∷ t) = true
str_lt (a ∷ s) [] = false
str_lt (a ∷ s) (b ∷ t) = ltb a b || ((a == b) && str_lt s t)

-- `strings.HasPrefix`.
unfoldable pub has_prefix : Str → Str → Bool
has_prefix s [] = true
has_prefix [] (b ∷ t) = false
has_prefix (a ∷ s) (b ∷ t) = (a == b) && has_prefix s t

unfoldable pub contains : List Str → Str → Bool
contains [] v = false
contains (x ∷ xs) v = str_eq x v || contains xs v

unfoldable pub ascii_space : ℕ → Bool
ascii_space c = (leb 9 c && leb c 13) || (c == 32)

-- U+0085 and U+00A0 by their second byte, behind 0xC2.
two_byte_space : ℕ → Bool
two_byte_space c = (c == 0x85) || (c == 0xa0)

-- U+1680; U+2000 to U+200A, U+2028, U+2029 and U+202F; U+205F; U+3000.
three_byte_space : ℕ → ℕ → ℕ → Bool
three_byte_space a b c =
    ((a == 0xe1) && (b == 0x9a) && (c == 0x80))
    || ((a == 0xe2)
        && (b == 0x80)
        && ((leb 0x80 c && leb c 0x8a) || (c == 0xa8) || (c == 0xa9) || (c == 0xaf)))
    || ((a == 0xe2) && (b == 0x81) && (c == 0x9f))
    || ((a == 0xe3) && (b == 0x80) && (c == 0x80))

-- The bytes that a white space code point at the front takes, 0 if there is none. `swapped` reads
-- the bytes last to first.
unfoldable pub space_length : Bool → Str → ℕ
unfolding ascii_space two_byte_space three_byte_space
space_length swapped [] = 0
space_length swapped (a ∷ []) = if ascii_space a then 1 else 0
space_length swapped (a ∷ b ∷ []) =
    if ascii_space a
    then 1
    else if (if swapped then (b == 0xc2) && two_byte_space a else (a == 0xc2) && two_byte_space b)
    then 2
    else 0
space_length swapped (a ∷ b ∷ c ∷ s) =
    if ascii_space a
    then 1
    else if (if swapped then (b == 0xc2) && two_byte_space a else (a == 0xc2) && two_byte_space b)
    then 2
    else if (if swapped then three_byte_space c b a else three_byte_space a b c)
    then 3
    else 0

-- The counter holds the bytes left to skip of the code point that was met last.
unfoldable pub trim_front : Bool → ℕ → Str → Str
unfolding space_length
trim_front swapped skip [] = []
trim_front swapped (suc skip) (a ∷ s) = trim_front swapped skip s
trim_front swapped zero (a ∷ s) = elim (space_length swapped (a ∷ s)) [
  | zero ↦ a ∷ s
  | suc skip ↦ trim_front swapped skip s
]

-- `strings.TrimSpace`.
unfoldable pub trim_space : Str → Str
unfolding trim_front
trim_space s = reverse (trim_front true 0 (reverse (trim_front false 0 s)))

-- `strings.ContainsAny(s, " \t\r\n")`.
unfoldable pub contains_white : Str → Bool
unfolding any
contains_white s = any (λ c. (c == 32) || (c == 9) || (c == 13) || (c == 10)) s

-- The decimal digits of a number, as `%d` prints them; the fuel is more than their count.
decimal_from : ℕ → ℕ → Str
decimal_from zero n = []
decimal_from (suc fuel) n =
    let high = decimal_from fuel (n / 10) in
    if ltb n 10 then (b'0' + n) ∷ [] else high ++ (b'0' + n % 10) ∷ []

unfoldable pub decimal : ℕ → Str
unfolding decimal_from
decimal n = decimal_from (suc n) n

decimal_example : decimal 407 ≡ bytes "407"
unfolding decimal
decimal_example = refl

trim_space_example : trim_space (bytes "  a b\t\n") ≡ bytes "a b"
unfolding trim_space
trim_space_example = refl

trim_space_wide : trim_space (0xe2 ∷ 0x80 ∷ 0x83 ∷ b'x' ∷ 0xc2 ∷ 0xa0 ∷ []) ≡ b'x' ∷ []
unfolding trim_space
trim_space_wide = refl
