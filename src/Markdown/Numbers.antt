-- ===== src/Markdown/Numbers.antt =====
-- The numbered headings of mind-palace/markdown/markdown.go: `numberedHeadingRe`,
-- `timestampHeadingRe`, `SectionNumbers` and `HasSection`.
use clued.Base.{
  ◌≡◌, refl, Bool, true, false, not, ◌&&◌, ◌||◌, Option, none, some, List, [], ◌∷◌, ◌++◌, Str,
  bytes, is_empty, has_prefix, contains, drop, length, leb, ◌==◌, if◌then◌else◌,
}
use clued.Model.Ids.{is_digit}
use clued.Markdown.{Line, span, run, is_tab_or_space, lines}

-- What stands behind `^#{1,6}[ \t]+`.
unfoldable pub heading_rest : Str → Option Str
unfolding span run
heading_rest line =
    let (n, s) = run b'#' line in
    let (blanks, rest) = span is_tab_or_space s in
    if leb 1 n && leb n 6 && not (is_empty blanks) then some rest else none

-- The first of the words that stands here with white space behind it, left out.
unfoldable pub skip_word : List Str → Str → Str
unfolding span
skip_word [] s = s
skip_word (word ∷ words) s =
    let (blanks, rest) = span is_tab_or_space (drop (length word) s) in
    if has_prefix s word && not (is_empty blanks) then rest else skip_word words s

-- `(?:[Pp]hase[ \t]+|[Ss]ection[ \t]+)?`
unfoldable pub skip_label : Str → Str
unfolding skip_word
skip_label s = skip_word (bytes "Phase" ∷ bytes "phase" ∷ bytes "Section" ∷ bytes "section" ∷ []) s

-- What may follow the number: a mark, an en or em dash, or white space.
unfoldable pub ends_number : Str → Bool
ends_number [] = true
ends_number (c ∷ s) =
    (c == b':')
    || (c == b'.')
    || (c == b'-')
    || (c == b')')
    || is_tab_or_space c
    || has_prefix (c ∷ s) (0xe2 ∷ 0x80 ∷ 0x93 ∷ [])
    || has_prefix (c ∷ s) (0xe2 ∷ 0x80 ∷ 0x94 ∷ [])

-- The number so far, whether a dot follows it, and the number before the last dot, which is matched
-- where the whole is not followed as it should be.
unfoldable pub number_from : Option Str → Str → Bool → Str → Option Str
unfolding ends_number
number_from shorter number false [] = some number
number_from shorter number true [] = shorter
number_from shorter number false (c ∷ s) = elim (is_digit c) [
  | true ↦ number_from shorter (number ++ c ∷ []) false s
  | false ↦ elim (c == b'.') [
    | true ↦ number_from (some number) number true s
    | false ↦ if ends_number (c ∷ s) then some number else shorter
  ]
]
number_from shorter number true (c ∷ s) = elim (is_digit c) [
  | true ↦ number_from shorter (number ++ (b'.' ∷ c ∷ [])) false s
  | false ↦ shorter
]

-- `([0-9]+(?:\.[0-9]+)*)` and what follows it.
unfoldable pub number_of : Str → Option Str
unfolding number_from
number_of [] = none
number_of (c ∷ s) = if is_digit c then number_from none (c ∷ []) false s else none

-- `[0-9]{4}-[0-9]{2}-[0-9]{2}`
unfoldable pub starts_date : Str → Bool
starts_date (a ∷ b ∷ c ∷ d ∷ h ∷ e ∷ f ∷ i ∷ g ∷ j ∷ s) =
    is_digit a
    && is_digit b
    && is_digit c
    && is_digit d
    && (h == b'-')
    && is_digit e
    && is_digit f
    && (i == b'-')
    && is_digit g
    && is_digit j
starts_date _ = false

-- The number of a line's heading.
unfoldable pub heading_number : Str → Option Str
unfolding heading_rest skip_label number_of starts_date
heading_number line = elim (heading_rest line) [
  | none ↦ none
  | some rest ↦ if starts_date rest then none else number_of (skip_label rest)
]

-- The loop of `SectionNumbers`, with `out` so far, which has the elements of `seen`.
unfoldable pub numbers_from : List Str → List Line → List Str
unfolding heading_number
numbers_from out [] = out
numbers_from out (l ∷ rest) = elim l.in_fence [
  | true ↦ numbers_from out rest
  | false ↦ elim (heading_number l.text) [
    | none ↦ numbers_from out rest
    | some n ↦ numbers_from (if contains out n then out else out ++ n ∷ []) rest
  ]
]

unfoldable pub section_numbers : Str → List Str
unfolding numbers_from
section_numbers content = numbers_from [] (lines content)

-- `HasSection`
abbrev pub has_section : Str → Str → Bool
has_section content number = contains (section_numbers content) number

backs_off : heading_number (bytes "## Phase 1.2.3x") ≡ some (bytes "1.2")
unfolding heading_number has_prefix
backs_off = refl

keeps_off : heading_number (bytes "### 2026-09-09T14") ≡ none
unfolding heading_number has_prefix
keeps_off = refl

keeps_dot : heading_number (bytes "# 2. Name") ≡ some (bytes "2")
unfolding heading_number has_prefix
keeps_dot = refl
