-- ===== src/Base/Trim.antt =====
-- `strings.TrimSpace` leaves a part of the text that has no white space before it.
use Prim.Native.Nat.{ℕ, zero, suc, ◌<◌}
use mathlib.Core.Path.{◌≡◌, refl, ap, sym, ◌∙◌}
use mathlib.Core.Logic.{◌⊎◌, inl, inr}
use mathlib.Core.Bool.{Bool, true, false}
use mathlib.Core.List.{[], ◌∷◌, ◌++◌, reverse, reverse-append, reverse-reverse}
use native.Mathlib.Omega.{arith}
use clued.Base.Text.{Str, ascii_space, space_length, trim_front, trim_space}

zero-or-suc : (n : ℕ) → (n ≡ 0) ⊎ ((k : ℕ) × (n ≡ suc k))
zero-or-suc zero = inl refl
zero-or-suc (suc k) = inr (k, refl)

trim_front-suffix :
    (swapped : Bool) (skip : ℕ) (s : Str) → (p : Str) × (s ≡ p ++ trim_front swapped skip s)
unfolding trim_front
trim_front-suffix swapped skip [] = ([], refl)
trim_front-suffix swapped (suc skip) (a ∷ s) =
    let (p, e) = trim_front-suffix swapped skip s in (a ∷ p, ap (λ t. a ∷ t) e)
trim_front-suffix swapped zero (a ∷ s) = elim (zero-or-suc (space_length swapped (a ∷ s))) [
  | inl black ↦ ([], rw (black, trim_front) refl)
  | inr (skip, white) ↦
      let (p, e) = trim_front-suffix swapped skip s in
      (a ∷ p, rw (white, trim_front) (ap (λ t. a ∷ t) e))
]

-- Bytes of ASCII that are no white space, and those that are.
pub space_length-black :
    (c : ℕ) (s : Str) → ascii_space c ≡ false → c < 128 → space_length false (c ∷ s) ≡ 0
unfolding space_length
space_length-black c [] h n = ground arith
space_length-black c (b ∷ []) h n = ground arith
space_length-black c (b ∷ d ∷ s) h n = ground arith

pub space_length-white : (c : ℕ) (s : Str) → ascii_space c ≡ true → space_length false (c ∷ s) ≡ 1
unfolding space_length
space_length-white c [] h = ground arith
space_length-white c (b ∷ []) h = ground arith
space_length-white c (b ∷ d ∷ s) h = ground arith

pub trim_space-front : (s : Str) → (q : Str) × (trim_front false 0 s ≡ trim_space s ++ q)
unfolding trim_space
trim_space-front s =
    let x = trim_front false 0 s in
    let y = trim_front true 0 (reverse x) in
    let (p, e) = trim_front-suffix true 0 (reverse x) in
    (reverse p, sym (reverse-reverse x) ∙ ap (λ r. reverse r) e ∙ reverse-append p y)

trim_front-black :
    (swapped : Bool) (skip : ℕ) (s : Str) → space_length swapped (trim_front swapped skip s) ≡ 0
unfolding trim_front
trim_front-black swapped skip [] = unfold space_length in refl
trim_front-black swapped (suc skip) (a ∷ s) = trim_front-black swapped skip s
trim_front-black swapped zero (a ∷ s) = elim (zero-or-suc (space_length swapped (a ∷ s))) [
  | inl black ↦ rw (black, trim_front) black
  | inr (skip, white) ↦ rw (white, trim_front) (trim_front-black swapped skip s)
]

trim_front_stays :
    (swapped : Bool) (s : Str) → space_length swapped s ≡ 0 → trim_front swapped 0 s ≡ s
unfolding trim_front
trim_front_stays swapped [] h = refl
trim_front_stays swapped (a ∷ s) h = rw (h, trim_front) refl

-- No white space at the front of a text is none at the front of its start.
space_length-prefix :
    (swapped : Bool) (t q : Str) → space_length swapped (t ++ q) ≡ 0 → space_length swapped t ≡ 0
unfolding space_length
space_length-prefix swapped [] q h = refl
space_length-prefix swapped (a ∷ []) [] h = h
space_length-prefix swapped (a ∷ []) (b ∷ []) h = ground arith
space_length-prefix swapped (a ∷ []) (b ∷ c ∷ q) h = ground arith
space_length-prefix swapped (a ∷ b ∷ []) [] h = h
space_length-prefix swapped (a ∷ b ∷ []) (c ∷ q) h = ground arith
space_length-prefix swapped (a ∷ b ∷ c ∷ t) q h = h

-- Trimming again changes nothing.
pub trim_space-trim_space : (s : Str) → trim_space (trim_space s) ≡ trim_space s
unfolding trim_space
trim_space-trim_space s =
    let x = trim_front false 0 s in
    let y = trim_front true 0 (reverse x) in
    let (q, e) = trim_space-front s in
    let whole : space_length false (reverse y ++ q) ≡ 0 =
      ap (λ t. space_length false t) (sym e) ∙ trim_front-black false 0 s in
    let front : trim_front false 0 (reverse y) ≡ reverse y =
      trim_front_stays false (reverse y) (space_length-prefix false (reverse y) q whole) in
    let back : trim_front true 0 (reverse (reverse y)) ≡ y =
      ap (λ t. trim_front true 0 t) (reverse-reverse y)
      ∙ trim_front_stays true y (trim_front-black true 0 (reverse x)) in
    ap (λ t. reverse (trim_front true 0 (reverse t))) front ∙ ap (λ t. reverse t) back
