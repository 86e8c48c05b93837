-- ===== src/Base/Rows.antt =====
-- The lines of a text: `strings.Split` and `strings.Join` with a newline.
use Prim.Native.Nat.{ℕ, ◌≤◌}
use mathlib.Core.Path.{◌≡◌, refl, ap, ◌∙◌}
use mathlib.Core.Bool.{Bool, true, false}
use mathlib.Core.List.{List, [], ◌∷◌, ◌++◌}
use native.Mathlib.Omega.{arith}
use clued.Base.Tests.{◌==◌, if◌then◌else◌}
use clued.Base.Lists.{length, All}
use clued.Base.Text.{Str}

abbrev pub newline : ℕ
newline = 10

-- `strings.Split(s, "\n")`.
unfoldable pub push_byte : ℕ → List Str → List Str
push_byte c [] = (c ∷ []) ∷ []
push_byte c (line ∷ lines) = (c ∷ line) ∷ lines

unfoldable pub split_lines : Str → List Str
unfolding push_byte
split_lines [] = [] ∷ []
split_lines (c ∷ s) =
    let rest = split_lines s in if c == newline then [] ∷ rest else push_byte c rest

-- `strings.Join(lines, "\n")`.
unfoldable pub join_lines : List Str → Str
join_lines [] = []
join_lines (line ∷ []) = line
join_lines (line ∷ next ∷ lines) = line ++ newline ∷ join_lines (next ∷ lines)

abbrev pub has_break : Str → Bool
has_break [] = false
has_break (c ∷ s) = if c == newline then true else has_break s

pub split_lines-line :
    (line s : Str)
    → has_break line ≡ false
    → split_lines (line ++ newline ∷ s) ≡ line ∷ split_lines s
unfolding split_lines push_byte
split_lines-line [] s h = refl
split_lines-line (c ∷ line) s h = ground (arith, split_lines-line line s)

pub split_lines-has_break : (s : Str) → All (λ l. has_break l ≡ false) (split_lines s)
unfolding split_lines push_byte
split_lines-has_break [] = (refl, tt)
split_lines-has_break (c ∷ s) = ground (arith, split_lines-has_break s)

split_lines-last : (s : Str) → has_break s ≡ false → split_lines s ≡ s ∷ []
unfolding split_lines push_byte
split_lines-last [] h = refl
split_lines-last (c ∷ s) h = ground (arith, split_lines-last s)

pub length-split_lines : (s : Str) → 1 ≤ length (split_lines s)
unfolding split_lines push_byte
length-split_lines [] = omega arith
length-split_lines (c ∷ s) = ground (arith, length-split_lines s)

pub split_lines-join_lines :
    (rows : List Str)
    → 1 ≤ length rows
    → All (λ l. has_break l ≡ false) rows
    → split_lines (join_lines rows) ≡ rows
unfolding join_lines
split_lines-join_lines [] n h = absurd (omega arith)
split_lines-join_lines (l ∷ []) n (h, hs) = split_lines-last l h
split_lines-join_lines (l ∷ k ∷ ls) n (h, hs) =
    split_lines-line l (join_lines (k ∷ ls)) h
    ∙ ap (λ t. l ∷ t) (split_lines-join_lines (k ∷ ls) (omega arith) hs)
