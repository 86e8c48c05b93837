-- ===== src/Markdown/Setting.antt =====
-- What `SetCriterion` of mind-palace/markdown/sections.go does to the criteria of the content.
use clued.Base.{
  inl, inr, ℕ, zero, suc, ◌+◌, ◌-◌, ◌≤◌, ◌≡◌, refl, ap, sym, ◌∙◌, true, false, none, some, List, [],
  ◌∷◌, arith, Str, take, drop, length, get_elem?, has_break, contains, Bool-cases, Option-cases, ok,
  split_lines, join_lines, split_lines-has_break, split_lines-join_lines, length-split_lines,
}
use clued.Markdown.{fence_of, Line, Folding, mark_lines, lines, section_from, find_section, set_at}
use clued.Markdown.Criteria.{
  Criterion, Item, check_item, state_of, mark_of, criterion_of, items_from, body_of, criteria,
  criteria_heading, remarked, at_option, at_line, item_at, set_criterion,
}
use clued.Markdown.Rows.{
  get_elem?-take, get_elem?-drop, take-set_at, drop-set_at, length-set_at, All-set_at,
  All-get_elem?,
}
use clued.Markdown.Items.{
  check_item-has_bullet, has_bullet-fence_of, has_bullet-is_heading, has_bullet-ends_section,
}
use clued.Markdown.Marking.{
  states, state_of-mark_of, plain, check_item-remarked, has_break-remarked, mark_lines-set_at,
  get_elem?-mark_lines, section_from-set_at,
}

-- The criteria with another state at a place from 0 on.
abbrev pub set_state : ℕ → Str → List Criterion → List Criterion
set_state j state [] = []
set_state zero state (c ∷ items) = record c { state = state } ∷ items
set_state (suc j) state (c ∷ items) = c ∷ set_state j state items

-- The criteria with another state at a position from 1 on.
abbrev pub with_state : ℕ → Str → List Criterion → List Criterion
with_state zero state items = items
with_state (suc j) state items = set_state j state items

-- The row of an item, and what the items are with another mark there.
abbrev Found : Folding → ℕ → ℕ → List Line → Str → ℕ → Criterion → Type 0
Found u i n ls state j c =
    (r : ℕ) × (old : Str) × (it : Item) × (c.line ≡ i + r)
    × (get_elem? ls r ≡ some (plain old))
    × (check_item old ≡ some it)
    × (items_from u i n (set_at r (plain (remarked state old)) ls)
        ≡ set_state j state (items_from u i n ls))

-- The same where the first line is an item.
hit-Found :
    (u : Folding) (i n : ℕ) (l : Line) (ls : List Line) (state : Str) (j : ℕ) (c : Criterion)
    (it : Item)
    → state_of (mark_of state) ≡ state
    → l.in_fence ≡ false
    → check_item l.text ≡ some it
    → get_elem? (items_from u i n (l ∷ ls)) j ≡ some c
    → ((k : ℕ) → j ≡ suc k → Found u (suc i) (suc n) ls state k c)
    → Found u i n (l ∷ ls) state j c
unfolding items_from set_at
hit-Found u i n l ls state zero c it s outside hit h later =
    let first : criterion_of u i n it ≡ c = ground (arith, outside, hit) in
    (
      0,
      l.text,
      it,
      ap (λ (x : Criterion). x.line) (sym first) ∙ omega arith,
      ap (λ b. some (record { text = l.text; in_fence = b })) outside,
      hit,
      rw (check_item-remarked state l.text it hit, outside, hit, s, items_from) refl,
    )
hit-Found u i n l ls state (suc j) c it s outside hit h later =
    let (r, old, it', line, row, item, rest) = later j refl in
    (
      suc r,
      old,
      it',
      omega (arith, line),
      row,
      item,
      rw (outside, hit, items_from) (ap (λ items. criterion_of u i n it ∷ items) rest),
    )

items_from-Found :
    (u : Folding) (i n : ℕ) (ls : List Line) (state : Str) (j : ℕ) (c : Criterion)
    → state_of (mark_of state) ≡ state
    → get_elem? (items_from u i n ls) j ≡ some c
    → Found u i n ls state j c
unfolding items_from set_at
items_from-Found u i n [] state j c s h = absurd (ground arith)
items_from-Found u i n (l ∷ ls) state j c s h = elim (Bool-cases l.in_fence) [
  | inl inside ↦
      let later : get_elem? (items_from u (suc i) n ls) j ≡ some c = ground (arith, inside) in
      let (r, old, it, line, row, item, rest) = items_from-Found u (suc i) n ls state j c s later in
      (suc r, old, it, omega (arith, line), row, item, rw (inside, items_from) rest)
  | inr outside ↦ elim (Option-cases (check_item l.text)) [
    | inl miss ↦
        let later : get_elem? (items_from u (suc i) n ls) j ≡ some c =
          ground (arith, outside, miss) in
        let (r, old, it, line, row, item, rest) =
          items_from-Found u (suc i) n ls state j c s later in
        (suc r, old, it, omega (arith, line), row, item, rw (outside, miss, items_from) rest)
    | inr (it, hit) ↦
        hit-Found u i n l ls state j c it s outside hit h
          λ k e. items_from-Found u (suc i) (suc n) ls state k c s (ground (arith, outside, hit, e))
  ]
]

-- The section's lines with another line at a row of the section.
body_of-set_at :
    (start end r : ℕ) (new : Line) (ls : List Line)
    → body_of start end (set_at (start + 1 + r) new ls) ≡ set_at r new (body_of start end ls)
body_of-set_at start end r new ls =
    ap (take (end - (start + 1))) (drop-set_at (start + 1) r new ls)
    ∙ take-set_at (end - (start + 1)) r new (drop (start + 1) ls)

-- The content with another line: its lines.
lines-join_lines :
    (content : Str) (k : ℕ) (old new : Str)
    → get_elem? (lines content) k ≡ some (plain old)
    → fence_of new ≡ none
    → has_break new ≡ false
    → lines (join_lines (set_at k new (split_lines content))) ≡ set_at k (plain new) (lines content)
unfolding lines
lines-join_lines content k old new h f b =
    let rows = split_lines content in
    let there : 1 ≤ length (set_at k new rows) =
      rw (length-set_at k new rows) (length-split_lines content) in
    let whole =
      All-set_at (λ l. has_break l ≡ false) k new rows b (split_lines-has_break content) in
    ap (mark_lines none) (split_lines-join_lines (set_at k new rows) there whole)
    ∙ mark_lines-set_at none rows k old new h f

-- The section stays where it is.
find_section-join_lines :
    (u : Folding) (content heading : Str) (k : ℕ) (old state : Str) (it : Item)
    → get_elem? (lines content) k ≡ some (plain old)
    → check_item old ≡ some it
    → lines (join_lines (set_at k (remarked state old) (split_lines content)))
      ≡ set_at k (plain (remarked state old)) (lines content)
    → find_section u (join_lines (set_at k (remarked state old) (split_lines content))) heading
      ≡ find_section u content heading
unfolding find_section
find_section-join_lines u content heading k old state it at item changed =
    let new = remarked state old in
    let before = check_item-has_bullet old it item in
    let after = check_item-has_bullet new _ (check_item-remarked state old it item) in
    ap (section_from u heading 0 none) changed
    ∙ section_from-set_at u heading 0 none (lines content) k old new at
        (has_bullet-is_heading u heading old before) (has_bullet-is_heading u heading new after)
        (has_bullet-ends_section old before) (has_bullet-ends_section new after)

-- The rows under the lines.
get_elem?-lines :
    (content : Str) (k : ℕ) (old : Str)
    → get_elem? (lines content) k ≡ some (plain old)
    → (get_elem? (split_lines content) k ≡ some old) × (has_break old ≡ false)
unfolding lines
get_elem?-lines content k old at =
    let row = get_elem?-mark_lines none (split_lines content) k old at in
    (
      row,
      All-get_elem? (λ l. has_break l ≡ false) k (split_lines content) old
          (split_lines-has_break content) row,
    )

-- `SetCriterion` on a position that `Criteria` lists: it succeeds, and the criteria of the new
-- content are those of the old with the state at that position.
pub criteria-set_criterion :
    (u : Folding) (content state : Str) (position : ℕ) (items : List Criterion) (c : Criterion)
    → contains states state ≡ true
    → criteria u content ≡ some items
    → item_at position items ≡ some c
    → (content' : Str) × (set_criterion u content position state ≡ ok content')
      × (criteria u content' ≡ some (with_state position state items))
unfolding set_criterion criteria
criteria-set_criterion u content state zero items c s h p = cc
criteria-set_criterion u content state (suc j) items c s h p =
    elim (Option-cases (find_section u content criteria_heading)) [
      | inl missing ↦ absurd (ground (arith, missing))
      | inr ((start, end), section) ↦
          let body = body_of start end (lines content) in
          let listed : items_from u (start + 1) 0 body ≡ items = ground (arith, section) in
          let there : get_elem? (items_from u (start + 1) 0 body) j ≡ some c = rw listed p in
          let (r, old, it, line, row, item, again) =
            items_from-Found u (start + 1) 0 body state j c (state_of-mark_of state s) there in
          let k = start + 1 + r in
          let new = remarked state old in
          let at : get_elem? (lines content) k ≡ some (plain old) =
            sym (get_elem?-drop (start + 1) r (lines content))
            ∙ get_elem?-take (end - (start + 1)) r (drop (start + 1) (lines content)) (plain old)
                row in
          let (text, unbroken) = get_elem?-lines content k old at in
          let bullet = check_item-has_bullet new _ (check_item-remarked state old it item) in
          let changed =
            lines-join_lines content k old new at (has_bullet-fence_of new bullet)
              (has_break-remarked state old it item unbroken) in
          let kept =
            find_section-join_lines u content criteria_heading k old state it at item changed
            ∙ section in
          let rows = split_lines content in
          (
            join_lines (set_at k new rows),
            rw (h, p, set_criterion)
                (ap (λ n. ok (join_lines (set_at n (remarked state (at_line n rows)) rows))) line
                  ∙ ap (λ l. ok (join_lines (set_at k (remarked state l) rows)))
                      (ap (λ o. at_option o) text)),
            rw (kept, criteria)
                (ap (λ ls. some (items_from u (start + 1) 0 ls))
                    (ap (body_of start end) changed
                      ∙ body_of-set_at start end r (plain new) (lines content))
                  ∙ ap some (again ∙ ap (set_state j state) listed)),
          )
    ]
