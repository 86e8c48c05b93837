-- ===== src/Markdown/Criteria.antt =====
-- Acceptance criteria of mind-palace/markdown/sections.go: the checklist under its heading.
use clued.Base.{
  ℕ, zero, suc, ◌+◌, ◌-◌, Bool, true, false, not, ◌&&◌, ◌||◌, Option, none, some, List, [], ◌∷◌,
  ◌++◌, map, Str, bytes, is_empty, trim_space, has_prefix, str_eq, ◌==◌, if◌then◌else◌, newline,
  split_lines, join_lines, reverse, take, drop, get_elem?, Result, ok, err,
}
use clued.Markdown.{Folding, Line, span, lines, find_section, set_at, trim_newlines}

abbrev pub state_open : Str
state_open = bytes "open"

abbrev pub state_done : Str
state_done = bytes "done"

abbrev pub state_not_applicable : Str
state_not_applicable = bytes "not_applicable"

abbrev pub kind_verify : Str
kind_verify = bytes "verify"

abbrev pub kind_manual : Str
kind_manual = bytes "manual"

abbrev pub criteria_heading : Str
criteria_heading = bytes "Acceptance Criteria"

pub record Criterion : Type 0 where
  pub position : ℕ
  pub text : Str
  pub kind : Str
  pub state : Str
  pub line : ℕ

-- The four groups of `checkItemRe`.
pub record Item : Type 0 where
  pub lead : Str
  pub mark : ℕ
  pub gap : Str
  pub rest : Str

-- `\s`
abbrev pub is_white : ℕ → Bool
is_white c = (c == 32) || (c == 9) || (c == 10) || (c == 12) || (c == 13)

abbrev pub is_bullet : ℕ → Bool
is_bullet c = (c == b'-') || (c == b'*') || (c == b'+')

abbrev pub is_mark : ℕ → Bool
is_mark c = (c == 32) || (c == b'x') || (c == b'X') || (c == b'~')

-- The pattern behind the bullet.
unfoldable pub open_box : Str → Str → Option Item
open_box lead (a ∷ m ∷ z ∷ s) =
    let (gap, rest) = span is_white s in
    if (a == b'[') && is_mark m && (z == b']') && not (is_empty gap)
    then some (record { lead = lead; mark = m; gap = gap; rest = rest })
    else none
open_box lead _ = none

-- `checkItemRe`.
unfoldable pub check_item : Str → Option Item
unfolding open_box
check_item line =
    let (front, s) = span is_white line in
    elim s [
      | [] ↦ none
      | b ∷ t ↦
          let (gap, box) = span is_white t in
          if is_bullet b && not (is_empty gap) then open_box (front ++ (b ∷ gap)) box else none
    ]

unfoldable pub state_of : ℕ → Str
state_of m =
    if (m == b'x') || (m == b'X')
    then state_done
    else if m == b'~'
    then state_not_applicable
    else state_open

unfoldable pub mark_of : Str → ℕ
mark_of state =
    if str_eq state state_done then b'x' else if str_eq state state_not_applicable then b'~' else 32

-- `splitCriterion`: the kind and the text.
unfoldable pub split_criterion : Folding → Str → Str × Str
split_criterion u text =
    let t = trim_space text in
    if has_prefix (u.upper t) (bytes "VERIFY:")
    then (kind_verify, trim_space (drop 7 t))
    else if has_prefix (u.upper t) (bytes "[MANUAL]")
    then (kind_manual, trim_space (drop 8 t))
    else ([], t)

unfoldable pub format_criterion : Str → Str → Str → Str
unfolding mark_of
format_criterion state kind text =
    let prefix =
      (if str_eq kind kind_verify
        then bytes "VERIFY: "
        else if str_eq kind kind_manual
        then bytes "[MANUAL] "
        else []) in
    bytes "- [" ++ (mark_of state ∷ (bytes "] " ++ (prefix ++ trim_space text)))

-- The criterion of a line that `checkItemRe` matches.
abbrev pub criterion_of : Folding → ℕ → ℕ → Item → Criterion
criterion_of u i n item =
    let (kind, text) = split_criterion u item.rest in
    record { position = suc n; text = text; kind = kind; state = state_of item.mark; line = i }

-- The loop of `Criteria` over the lines of the section, at line `i`, with `n` items so far.
unfoldable pub items_from : Folding → ℕ → ℕ → List Line → List Criterion
unfolding check_item split_criterion state_of
items_from u i n [] = []
items_from u i n (l ∷ rest) = elim l.in_fence [
  | true ↦ items_from u (suc i) n rest
  | false ↦ elim (check_item l.text) [
    | none ↦ items_from u (suc i) n rest
    | some item ↦ criterion_of u i n item ∷ items_from u (suc i) (suc n) rest
  ]
]

-- The lines of a section behind its heading.
abbrev pub body_of {ℓ} : {A : Type ℓ} → ℕ → ℕ → List A → List A
body_of start end ls = take (end - (start + 1)) (drop (start + 1) ls)

-- `Criteria`; `none` where the section is missing.
unfoldable pub criteria : Folding → Str → Option (List Criterion)
criteria u content = elim (find_section u content criteria_heading) [
  | none ↦ none
  | some (start, end) ↦ some (items_from u (start + 1) 0 (body_of start end (lines content)))
]

-- What `CriteriaProblems` may report: the line's number and text, or what is missing.
pub data Problem : Type 0 where
  no_section no_items : Problem
  not_an_item : ℕ → Str → Problem

-- The loop of `CriteriaProblems`: the count of items, and the problems.
unfoldable pub problems_from : ℕ → List Line → ℕ × List Problem
unfolding check_item
problems_from i [] = (0, [])
problems_from i (l ∷ body) =
    let (items, problems) = problems_from (suc i) body in
    let t = trim_space l.text in
    if l.in_fence || is_empty t || has_prefix t (bytes "<!--")
    then (items, problems)
    else elim (check_item l.text) [
      | none ↦ (items, not_an_item (i + 1) t ∷ problems)
      | some item ↦ (suc items, problems)
    ]

unfoldable pub criteria_problems : Folding → Str → List Problem
unfolding find_section problems_from
criteria_problems u content = elim (find_section u content criteria_heading) [
  | none ↦ no_section ∷ []
  | some (start, end) ↦
      let (items, problems) = problems_from (start + 1) (body_of start end (lines content)) in
      if items == 0 then problems ++ no_items ∷ [] else problems
]

-- The errors of `SetCriterion` and `RemoveCriterion`.
pub data Refusal : Type 0 where
  missing_section no_criterion : Refusal

-- The line with another mark.
unfoldable pub remarked : Str → Str → Str
unfolding check_item mark_of
remarked state line = elim (check_item line) [
  | none ↦ line
  | some item ↦ item.lead ++ (b'[' ∷ mark_of state ∷ b']' ∷ (item.gap ++ item.rest))
]

abbrev pub at_option : Option Str → Str
at_option none = []
at_option (some l) = l

abbrev pub at_line : ℕ → List Str → Str
at_line i ls = at_option (get_elem? ls i)

-- The item at a position from 1 on.
abbrev pub item_at : ℕ → List Criterion → Option Criterion
item_at zero items = none
item_at (suc i) items = get_elem? items i

unfoldable pub set_criterion : Folding → Str → ℕ → Str → Result Refusal Str
set_criterion u content position state = elim (criteria u content) [
  | none ↦ err missing_section
  | some items ↦ elim (item_at position items) [
    | none ↦ err no_criterion
    | some c ↦
        let rows = split_lines content in
        ok (join_lines (set_at c.line (remarked state (at_line c.line rows)) rows))
  ]
]

unfoldable pub remove_criterion : Folding → Str → ℕ → Result Refusal Str
remove_criterion u content position = elim (criteria u content) [
  | none ↦ err missing_section
  | some items ↦ elim (item_at position items) [
    | none ↦ err no_criterion
    | some c ↦
        let rows = split_lines content in
        ok (join_lines (take c.line rows ++ drop (c.line + 1) rows))
  ]
]

-- The line behind the last item of the section's lines, `at` if there is none.
unfoldable pub behind_items : ℕ → ℕ → List Line → ℕ
unfolding check_item
behind_items at i [] = at
behind_items at i (l ∷ body) = elim (check_item l.text) [
  | none ↦ behind_items at (suc i) body
  | some item ↦ behind_items (if l.in_fence then at else suc i) (suc i) body
]

-- `strings.TrimRight(s, "\n")`.
abbrev pub trim_newlines_right : Str → Str
trim_newlines_right s = reverse (trim_newlines (reverse s))

-- A section with one line behind the content.
abbrev pub new_section : Str → Str → Str → Str
new_section content heading line =
    trim_newlines_right content
    ++ (newline
        ∷ newline
        ∷ (bytes "## " ++ (heading ++ (newline ∷ newline ∷ (line ++ newline ∷ [])))))

unfoldable pub add_criterion : Folding → Str → Str → Str → Str
unfolding find_section format_criterion behind_items
add_criterion u content text kind =
    let item = format_criterion state_open kind text in
    elim (find_section u content criteria_heading) [
      | none ↦ new_section content criteria_heading item
      | some (start, end) ↦
          let rows = map (λ (l : Line). l.text) (lines content) in
          let at = behind_items (start + 1) (start + 1) (body_of start end (lines content)) in
          let added = (if at == start + 1 then [] ∷ item ∷ [] else item ∷ []) in
          join_lines (take at rows ++ (added ++ drop at rows))
    ]
