-- ===== src/Markdown.antt =====
-- The content of a document: lines, fenced code blocks and headings of
-- mind-palace/markdown/markdown.go and `FindSection` of mind-palace/markdown/sections.go.
pub mod Criteria
pub mod WorkLog
pub mod Numbers
pub mod FrontMatter
pub mod Rows
pub mod Items
pub mod Marking
pub mod Setting
use clued.Base.{
  ℕ, zero, suc, ◌+◌, ◌≡◌, Bool, true, false, not, ◌&&◌, ◌||◌, Option, none, some, List, [], ◌∷◌,
  ◌++◌, map, Str, bytes, is_empty, trim_space, has_prefix, str_eq, leb, ◌==◌, if◌then◌else◌,
  newline, split_lines, join_lines,
}

-- What the package takes from Go's Unicode tables: `strings.EqualFold` and `strings.ToUpper`.
pub record Folding : Type 0 where
  pub equal_fold : Str → Str → Bool
  pub upper : Str → Str
  pub equal_fold_refl : (s : Str) → equal_fold s s ≡ true

pub record Line : Type 0 where
  pub text : Str
  pub in_fence : Bool

-- The leading bytes that pass the test, and what follows.
unfoldable pub span : (ℕ → Bool) → Str → Str × Str
span p [] = ([], [])
span p (c ∷ s) = let (front, rest) = span p s in if p c then (c ∷ front, rest) else ([], c ∷ s)

abbrev pub backtick : ℕ
backtick = 96

-- The `n` spaces at most that a fence may stand behind.
unfoldable pub skip_spaces : ℕ → Str → Str
skip_spaces zero s = s
skip_spaces (suc n) [] = []
skip_spaces (suc n) (c ∷ s) = if c == 32 then skip_spaces n s else c ∷ s

-- A run of the fence's byte: its length, and what follows.
unfoldable pub run : ℕ → Str → ℕ × Str
run c [] = (0, [])
run c (d ∷ s) = let (n, rest) = run c s in if d == c then (suc n, rest) else (0, d ∷ s)

-- `fenceRe`: the byte, the length of the fence and the info string.
unfoldable pub fence_of : Str → Option (ℕ × ℕ × Str)
unfolding skip_spaces run
fence_of line = elim (skip_spaces 3 line) [
  | [] ↦ none
  | c ∷ s ↦
      let (n, info) = run c (c ∷ s) in
      if ((c == backtick) || (c == b'~')) && leb 3 n then some (c, n, info) else none
]

-- One round of the loop of `Lines`: whether the line is in a fence, and the fence that is open
-- behind it.
unfoldable pub step_fence : Option (ℕ × ℕ) → Str → Bool × Option (ℕ × ℕ)
unfolding fence_of
step_fence none line = elim (fence_of line) [
  | none ↦ (false, none)
  | some (c, n, info) ↦ (true, some (c, n))
]
step_fence (some (c, n)) line = elim (fence_of line) [
  | none ↦ (true, some (c, n))
  | some (d, k, info) ↦
      if (d == c) && leb n k && is_empty (trim_space info)
      then (true, none)
      else (true, some (c, n))
]

unfoldable pub mark_lines : Option (ℕ × ℕ) → List Str → List Line
mark_lines fence [] = []
mark_lines fence (line ∷ rest) =
    let (inside, next) = step_fence fence line in
    record { text = line; in_fence = inside } ∷ mark_lines next rest

-- `Lines`.
unfoldable pub lines : Str → List Line
unfolding mark_lines
lines content = mark_lines none (split_lines content)

abbrev pub is_tab_or_space : ℕ → Bool
is_tab_or_space c = (c == 32) || (c == 9)

-- Whether `[ \t]*#*[ \t]*$` matches here.
unfoldable pub is_closing : Str → Bool
unfolding span
is_closing s =
    is_empty (span is_tab_or_space (span (λ c. c == b'#') (span is_tab_or_space s).1).1).1

-- The shortest `(.*?)` before it.
unfoldable pub heading_text : Str → Str
unfolding is_closing
heading_text [] = []
heading_text (c ∷ s) = let rest = heading_text s in if is_closing (c ∷ s) then [] else c ∷ rest

-- The text of a heading behind its marks.
unfoldable pub heading_behind : Str → Option Str
unfolding span heading_text
heading_behind s =
    let (blanks, rest) = span is_tab_or_space s in
    if is_empty blanks then none else some (heading_text rest)

-- `h1Re` and `h2Re`, on one line.
unfoldable pub h1 : Str → Option Str
h1 [] = none
h1 (a ∷ s) = if a == b'#' then heading_behind s else none

unfoldable pub h2 : Str → Option Str
h2 [] = none
h2 (a ∷ s) = if a == b'#' then h1 s else none

-- Whether the line is an H2 of this text.
unfoldable pub is_heading : Folding → Str → Str → Bool
unfolding h2
is_heading u heading line = elim (h2 line) [
  | none ↦ false
  | some text ↦ u.equal_fold (trim_space text) heading
]

-- Whether an H1 or H2 ends the section.
unfoldable pub ends_section : Str → Bool
ends_section line =
    let t = trim_space line in
    has_prefix t (bytes "# ")
    || has_prefix t (bytes "## ")
    || str_eq t (bytes "#")
    || str_eq t (bytes "##")

-- The loop of `FindSection`, at line `i`, with the `start` found so far.
unfoldable pub section_from : Folding → Str → ℕ → Option ℕ → List Line → Option (ℕ × ℕ)
unfolding is_heading ends_section
section_from u heading i none [] = none
section_from u heading i (some start) [] = some (start, i)
section_from u heading i start (l ∷ rest) = elim l.in_fence [
  | true ↦ section_from u heading (suc i) start rest
  | false ↦ elim start [
    | none ↦
        section_from u heading (suc i) (if is_heading u heading l.text then some i else none) rest
    | some k ↦ elim (ends_section l.text) [
      | true ↦ some (k, i)
      | false ↦ section_from u heading (suc i) (some k) rest
    ]
  ]
]

-- `FindSection`: `Start` and `End`.
unfoldable pub find_section : Folding → Str → Str → Option (ℕ × ℕ)
find_section u content heading = section_from u heading 0 none (lines content)

-- The first H1 among lines outside fences: its number and its text.
unfoldable pub first_h1_from : ℕ → List Line → Option (ℕ × Str)
unfolding h1
first_h1_from i [] = none
first_h1_from i (l ∷ rest) = elim l.in_fence [
  | true ↦ first_h1_from (suc i) rest
  | false ↦ elim (h1 l.text) [ none ↦ first_h1_from (suc i) rest | some text ↦ some (i, text) ]
]

-- `FirstH1`.
unfoldable pub first_h1 : Str → Option Str
unfolding first_h1_from lines
first_h1 content = elim (first_h1_from 0 (lines content)) [
  | none ↦ none
  | some (i, text) ↦ some (trim_space text)
]

-- The assignment `lines[i] = x`.
unfoldable pub set_at {ℓ} : {A : Type ℓ} → ℕ → A → List A → List A
set_at i x [] = []
set_at zero x (y ∷ ys) = x ∷ ys
set_at (suc i) x (y ∷ ys) = y ∷ set_at i x ys

-- `strings.TrimLeft(s, "\n")`.
unfoldable pub trim_newlines : Str → Str
trim_newlines [] = []
trim_newlines (c ∷ s) = if c == newline then trim_newlines s else c ∷ s

-- `SetH1`.
unfoldable pub set_h1 : Str → Str → Str
unfolding first_h1_from lines set_at trim_newlines
set_h1 content title = elim (first_h1_from 0 (lines content)) [
  | none ↦ bytes "# " ++ title ++ (newline ∷ newline ∷ trim_newlines content)
  | some (i, text) ↦ join_lines (set_at i (bytes "# " ++ title) (split_lines content))
]
