-- ===== src/Markdown/Marking.antt =====
-- `SetCriterion` of mind-palace/markdown/sections.go changes one line, and what `Lines`,
-- `FindSection` and `Criteria` make of the others stays.
use clued.Base.{
  inl, inr, ℕ, zero, suc, ◌≡◌, refl, subst, ap, ◌∙◌, true, false, ◌||◌, Option, none, some, List,
  [], ◌∷◌, ◌++◌, arith, Str, get_elem?, has_break, newline, ◌==◌, str_eq_iff, contains,
  if◌then◌else◌, Bool-cases, Option-cases,
}
use clued.Markdown.{
  Line, Folding, step_fence, mark_lines, fence_of, is_heading, ends_section, section_from, set_at,
}
use clued.Markdown.Criteria.{
  Item, is_mark, check_item, state_of, mark_of, remarked, state_open, state_done,
  state_not_applicable,
}
use clued.Markdown.Items.{IsItem, print_item, check_item-IsMatch, check_item-print_item}

abbrev pub states : List Str
states = state_open ∷ state_done ∷ state_not_applicable ∷ []

mark_of-is_mark : (state : Str) → is_mark (mark_of state) ≡ true
unfolding mark_of
mark_of-is_mark state = ground arith

pub state_of-mark_of :
    (state : Str) → contains states state ≡ true → state_of (mark_of state) ≡ state
unfolding state_of mark_of contains
state_of-mark_of state h = ground (
  arith,
  str_eq_iff state state_done,
  str_eq_iff state state_not_applicable,
  str_eq_iff state_open state,
  str_eq_iff state_done state,
  str_eq_iff state_not_applicable state,
)

abbrev with_mark : Str → Item → Item
with_mark state it = record it { mark = mark_of state }

remarked-print_item :
    (state line : Str) (it : Item)
    → check_item line ≡ some it
    → remarked state line ≡ print_item (with_mark state it)
unfolding remarked
remarked-print_item state line it h = rw (h, remarked) refl

pub check_item-remarked :
    (state line : Str) (it : Item)
    → check_item line ≡ some it
    → check_item (remarked state line) ≡ some (with_mark state it)
check_item-remarked state line it h =
    let (i, e) = check_item-IsMatch line it h in
    let again : IsItem (with_mark state it) = record {
      front = i.front;
      bullet = i.bullet;
      middle = i.middle;
      lead = i.lead;
      front_white = i.front_white;
      is_bullet = i.is_bullet;
      middle_white = i.middle_white;
      middle_there = i.middle_there;
      mark = mark_of-is_mark state;
      gap_white = i.gap_white;
      gap_there = i.gap_there;
      rest = i.rest;
    } in
    ap check_item (remarked-print_item state line it h)
    ∙ check_item-print_item (with_mark state it) again

has_break-append : (s t : Str) → has_break (s ++ t) ≡ (has_break s || has_break t)
has_break-append [] t = refl
has_break-append (c ∷ s) t = ground (arith, has_break-append s t)

has_break-mark_of : (state : Str) → (mark_of state == newline) ≡ false
unfolding mark_of
has_break-mark_of state = ground arith

pub has_break-remarked :
    (state line : Str) (it : Item)
    → check_item line ≡ some it
    → has_break line ≡ false
    → has_break (remarked state line) ≡ false
has_break-remarked state line it h b =
    let (i, e) = check_item-IsMatch line it h in
    let before : has_break (print_item it) ≡ false = subst (λ x. has_break x ≡ false) e b in
    rw (remarked-print_item state line it h) (
      ground (
        arith,
        has_break-mark_of state,
        has_break-append it.lead (b'[' ∷ it.mark ∷ b']' ∷ (it.gap ++ it.rest)),
        has_break-append it.lead (b'[' ∷ mark_of state ∷ b']' ∷ (it.gap ++ it.rest)),
      ))

-- The line `l`, outside a fence.
abbrev pub plain : Str → Line
plain line = record { text = line; in_fence = false }

step_fence-outside :
    (fence : Option (ℕ × ℕ)) (row new : Str)
    → (step_fence fence row).0 ≡ false
    → fence_of new ≡ none
    → step_fence fence new ≡ (false, (step_fence fence row).1)
unfolding step_fence
step_fence-outside none row new h f = elim (Option-cases (fence_of row)) [
  | inl shut ↦ rw (shut, f, step_fence) refl
  | inr ((c, n, info), there) ↦ absurd (ground (arith, there))
]
step_fence-outside (some (c, n)) row new h f = elim (Option-cases (fence_of row)) [
  | inl shut ↦ absurd (ground (arith, shut))
  | inr ((d, k, info), there) ↦ absurd (ground (arith, there))
]

pub mark_lines-set_at :
    (fence : Option (ℕ × ℕ)) (rows : List Str) (k : ℕ) (old new : Str)
    → get_elem? (mark_lines fence rows) k ≡ some (plain old)
    → fence_of new ≡ none
    → mark_lines fence (set_at k new rows) ≡ set_at k (plain new) (mark_lines fence rows)
unfolding mark_lines set_at
mark_lines-set_at fence [] k old new h f = refl
mark_lines-set_at fence (row ∷ rows) zero old new h f =
    let outside : (step_fence fence row).0 ≡ false = ground arith in
    rw (step_fence-outside fence row new outside f) refl
mark_lines-set_at fence (row ∷ rows) (suc k) old new h f =
    ap (λ ls. record { text = row; in_fence = (step_fence fence row).0 } ∷ ls)
      (mark_lines-set_at (step_fence fence row).1 rows k old new h f)

-- The rows under the lines.
pub get_elem?-mark_lines :
    (fence : Option (ℕ × ℕ)) (rows : List Str) (k : ℕ) (old : Str)
    → get_elem? (mark_lines fence rows) k ≡ some (plain old)
    → get_elem? rows k ≡ some old
unfolding mark_lines
get_elem?-mark_lines fence [] k old h = cc
get_elem?-mark_lines fence (row ∷ rows) zero old h = ground arith
get_elem?-mark_lines fence (row ∷ rows) (suc k) old h =
    get_elem?-mark_lines (step_fence fence row).1 rows k old h

-- A line that neither starts nor ends a section may be any other such line.
pub section_from-set_at :
    (u : Folding) (heading : Str) (i : ℕ) (start : Option ℕ) (ls : List Line) (k : ℕ)
    (old new : Str)
    → get_elem? ls k ≡ some (plain old)
    → is_heading u heading old ≡ false
    → is_heading u heading new ≡ false
    → ends_section old ≡ false
    → ends_section new ≡ false
    → section_from u heading i start (set_at k (plain new) ls) ≡ section_from u heading i start ls
unfolding section_from set_at
section_from-set_at u heading i start [] k old new h a b c d = refl
section_from-set_at u heading i none (l ∷ ls) zero old new h a b c d =
    let text : l.text ≡ old = ground arith in
    let outside : l.in_fence ≡ false = ground arith in
    let before : is_heading u heading l.text ≡ false = rw text a in
    rw (outside, before, b, section_from) refl
section_from-set_at u heading i (some s) (l ∷ ls) zero old new h a b c d =
    let text : l.text ≡ old = ground arith in
    let outside : l.in_fence ≡ false = ground arith in
    let before : ends_section l.text ≡ false = rw text c in
    rw (outside, before, d, section_from) refl
section_from-set_at u heading i none (l ∷ ls) (suc k) old new h a b c d =
    elim (Bool-cases l.in_fence) [
      | inl inside ↦
          rw (inside, section_from)
            (section_from-set_at u heading (suc i) none ls k old new h a b c d)
      | inr outside ↦
          rw (outside, section_from)
            (section_from-set_at u heading (suc i)
              (if is_heading u heading l.text then some i else none) ls k old new h a b c d)
    ]
section_from-set_at u heading i (some s) (l ∷ ls) (suc k) old new h a b c d =
    elim (Bool-cases l.in_fence) [
      | inl inside ↦
          rw (inside, section_from)
            (section_from-set_at u heading (suc i) (some s) ls k old new h a b c d)
      | inr outside ↦ elim (Bool-cases (ends_section l.text)) [
        | inl last ↦ rw (outside, last, section_from) refl
        | inr more ↦
            rw (outside, more, section_from)
              (section_from-set_at u heading (suc i) (some s) ls k old new h a b c d)
      ]
    ]
