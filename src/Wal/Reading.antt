-- ===== src/Wal/Reading.antt =====
-- What mind-palace/session/wal/wal.go reads back from a file that it wrote.
use clued.Base.{
  ◌≡◌, refl, sym, ap, ◌∙◌, Bool, true, false, not, List, [], ◌∷◌, ◌++◌, arith, Str, keep, ◌==◌,
  if◌then◌else◌, All, ++_assoc, newline, has_break, split_lines, split_lines-line, push_byte,
  join_lines,
}
use clued.Wal.Log.{is_blank, lines_of, written}

-- A line as `Append` writes it: with no line break, and not blank.
abbrev pub IsLine : Str → Type 0
IsLine line = (has_break line ≡ false) × (is_blank line ≡ false)

-- The lines, each with its line break.
abbrev pub whole : List Str → Str
whole [] = []
whole (line ∷ lines) = line ++ newline ∷ whole lines

pub lines_of-whole : (lines : List Str) → All IsLine lines → lines_of (whole lines) ≡ lines
unfolding lines_of split_lines keep is_blank clued.Base.trim_space
lines_of-whole [] h = refl
lines_of-whole (line ∷ lines) (l, ls) =
    ground (arith, split_lines-line line (whole lines), lines_of-whole lines ls)

pub written-whole : (lines : List Str) → written lines ≡ whole lines
unfolding written join_lines
written-whole [] = refl
written-whole (line ∷ []) = refl
written-whole (line ∷ next ∷ lines) =
    ++_assoc line (newline ∷ join_lines (next ∷ lines)) (newline ∷ [])
    ∙ ap (λ s. line ++ newline ∷ s) (written-whole (next ∷ lines))

pub whole-append :
    (lines : List Str) (line : Str)
    → whole (lines ++ line ∷ []) ≡ whole lines ++ (line ++ newline ∷ [])
whole-append [] line = refl
whole-append (l ∷ lines) line =
    let step : (l ++ newline ∷ whole lines) ++ (line ++ newline ∷ [])
        ≡ l ++ (newline ∷ (whole lines ++ (line ++ newline ∷ []))) =
      ++_assoc l (newline ∷ whole lines) (line ++ newline ∷ []) in
    ap (λ s. l ++ newline ∷ s) (whole-append lines line) ∙ sym step

-- An empty file has no lines.
pub whole-nil : (lines : List Str) → [] ≡ whole lines → lines ≡ []
whole-nil [] h = refl
whole-nil ([] ∷ lines) h = cc
whole-nil ((c ∷ line) ∷ lines) h = cc
