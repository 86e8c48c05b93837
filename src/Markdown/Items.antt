-- ===== src/Markdown/Items.antt =====
-- The lines that `checkItemRe` of mind-palace/markdown/sections.go matches.
use clued.Base.{
  ◌⊎◌, ℕ, zero, suc, ◌≡◌, refl, subst, ap, sym, ◌∙◌, Bool, true, false, not, ◌&&◌, ◌||◌, none, some,
  [], ◌∷◌, ◌++◌, arith, Str, bytes, is_empty, any, ◌==◌, ++_assoc, trim_space, trim_front,
  trim_space-front, ascii_space, space_length-black, space_length-white, has_prefix, str_eq,
  Bool-cases, List-cases, inl, inr,
}
use clued.Markdown.{span, skip_spaces, fence_of, h2, Folding, is_heading, ends_section}
use clued.Markdown.Criteria.{Item, is_white, is_bullet, is_mark, open_box, check_item}

abbrev pub starts : (ℕ → Bool) → Str → Bool
starts p [] = false
starts p (c ∷ s) = p c

abbrev pub all_of : (ℕ → Bool) → Str → Bool
all_of p s = not (any (λ c. not (p c)) s)

span-++ : (p : ℕ → Bool) (s : Str) → s ≡ (span p s).0 ++ (span p s).1
unfolding span
span-++ p [] = refl
span-++ p (c ∷ s) = elim (Bool-cases (p c)) [
  | inl hit ↦ rw hit (ap (λ t. c ∷ t) (span-++ p s))
  | inr miss ↦ rw miss refl
]

span-all_of : (p : ℕ → Bool) (s : Str) → all_of p (span p s).0 ≡ true
unfolding span any
span-all_of p [] = refl
span-all_of p (c ∷ s) = ground (arith, span-all_of p s)

span-starts : (p : ℕ → Bool) (s : Str) → starts p (span p s).1 ≡ false
unfolding span
span-starts p [] = refl
span-starts p (c ∷ s) = ground (arith, span-starts p s)

pub span-append :
    (p : ℕ → Bool) (front rest : Str)
    → all_of p front ≡ true
    → starts p rest ≡ false
    → span p (front ++ rest) ≡ (front, rest)
unfolding span any
span-append p [] [] h r = refl
span-append p [] (c ∷ rest) h r = ground arith
span-append p (c ∷ front) rest h r = ground (arith, span-append p front rest)

-- The line that the groups of `checkItemRe` make up.
abbrev pub boxed : Item → Str
boxed it = b'[' ∷ it.mark ∷ b']' ∷ (it.gap ++ it.rest)

abbrev pub print_item : Item → Str
print_item it = it.lead ++ boxed it

-- What the groups of a match are.
pub record IsItem (it : Item) : Type 0 where
  pub front : Str
  pub bullet : ℕ
  pub middle : Str
  pub lead : it.lead ≡ front ++ (bullet ∷ middle)
  pub front_white : all_of is_white front ≡ true
  pub is_bullet : is_bullet bullet ≡ true
  pub middle_white : all_of is_white middle ≡ true
  pub middle_there : is_empty middle ≡ false
  pub mark : is_mark it.mark ≡ true
  pub gap_white : all_of is_white it.gap ≡ true
  pub gap_there : is_empty it.gap ≡ false
  pub rest : starts is_white it.rest ≡ false

abbrev Opened : Str → Str → Item → Type 0
Opened lead box it =
    (it.lead ≡ lead)
    × (box ≡ b'[' ∷ it.mark ∷ b']' ∷ (it.gap ++ it.rest))
    × (is_mark it.mark ≡ true)
    × (all_of is_white it.gap ≡ true)
    × (is_empty it.gap ≡ false)
    × (starts is_white it.rest ≡ false)

open_box-cases : (lead box : Str) (it : Item) → open_box lead box ≡ some it → Opened lead box it
unfolding open_box
open_box-cases lead [] it h = cc
open_box-cases lead (a ∷ []) it h = cc
open_box-cases lead (a ∷ m ∷ []) it h = cc
open_box-cases lead (a ∷ m ∷ z ∷ s) it h =
    elim (Bool-cases
      ((a == b'[') && is_mark m && (z == b']') && not (is_empty (span is_white s).0))) [
        | inl hit ↦
            let same : record {
              lead = lead;
              mark = m;
              gap = (span is_white s).0;
              rest = (span is_white s).1;
            }
                ≡ it =
              ground arith in
            subst (Opened lead (a ∷ m ∷ z ∷ s)) same (
              refl,
              ground (arith, span-++ is_white s),
              ground arith,
              span-all_of is_white s,
              ground arith,
              span-starts is_white s,
            )
        | inr miss ↦ absurd (ground arith)
      ]

abbrev pub IsMatch : Str → Item → Type 0
IsMatch line it = IsItem it × (line ≡ print_item it)

pub check_item-IsMatch : (line : Str) (it : Item) → check_item line ≡ some it → IsMatch line it
unfolding check_item
check_item-IsMatch line it h = elim (List-cases (span is_white line).1) [
  | inl nothing ↦ absurd (ground (arith, nothing))
  | inr (b, t, found) ↦ elim (Bool-cases (is_bullet b && not (is_empty (span is_white t).0))) [
    | inr miss ↦ absurd (ground (arith, found, miss))
    | inl hit ↦
        let front = (span is_white line).0 in
        let middle = (span is_white t).0 in
        let box = (span is_white t).1 in
        let opened : open_box (front ++ (b ∷ middle)) box ≡ some it = ground (arith, found, hit) in
        let (lead, rest, mark, gap, there, stop) =
          open_box-cases (front ++ (b ∷ middle)) box it opened in
        (
          record {
            front = front;
            bullet = b;
            middle = middle;
            lead = lead;
            front_white = span-all_of is_white line;
            is_bullet = ground arith;
            middle_white = span-all_of is_white t;
            middle_there = ground arith;
            mark = mark;
            gap_white = gap;
            gap_there = there;
            rest = stop;
          },
          span-++ is_white line
              ∙ ap (λ r. front ++ r) found
              ∙ ap (λ r. front ++ (b ∷ r)) (span-++ is_white t ∙ ap (λ r. middle ++ r) rest)
              ∙ sym (++_assoc front (b ∷ middle) (boxed it))
              ∙ ap (λ l. l ++ boxed it) (sym lead),
        )
  ]
]

-- Printed again, an item is matched as it is.
pub check_item-print_item : (it : Item) → IsItem it → check_item (print_item it) ≡ some it
unfolding check_item open_box
check_item-print_item it i =
    let behind = i.bullet ∷ (i.middle ++ boxed it) in
    let line : print_item it ≡ i.front ++ behind =
      ap (λ l. l ++ boxed it) i.lead ∙ ++_assoc i.front (i.bullet ∷ i.middle) (boxed it) in
    let black : is_white i.bullet ≡ false = ground (arith, i.is_bullet) in
    let first = span-append is_white i.front behind i.front_white black in
    let second = span-append is_white i.middle (boxed it) i.middle_white refl in
    let third = span-append is_white it.gap it.rest i.gap_white i.rest in
    ap check_item line
    ∙ rw (first, second, i.is_bullet, i.middle_there, check_item)
        (rw (third, i.mark, i.gap_there, open_box)
          (ap (λ l. some (record it { lead = l }))
            (ap (λ r. r.0 ++ (i.bullet ∷ i.middle)) first ∙ sym i.lead)))

-- The first byte behind the white space is a bullet.
abbrev pub has_bullet : Str → Bool
has_bullet s = starts is_bullet (span is_white s).1

pub check_item-has_bullet :
    (line : Str) (it : Item) → check_item line ≡ some it → has_bullet line ≡ true
unfolding check_item
check_item-has_bullet line it h = elim (List-cases (span is_white line).1) [
  | inl nothing ↦ absurd (ground (arith, nothing))
  | inr (b, t, found) ↦ rw found (ground (arith, found))
]

has_bullet-cons :
    (c : ℕ) (s : Str)
    → has_bullet (c ∷ s) ≡ true
    → (is_bullet c ≡ true) ⊎ ((is_white c ≡ true) × (has_bullet s ≡ true))
unfolding span
has_bullet-cons c s h = elim (Bool-cases (is_white c)) [
  | inl white ↦ inr (white, ground (arith, white))
  | inr black ↦ inl (ground (arith, black))
]

has_bullet-skip_spaces :
    (n : ℕ) (s : Str) → has_bullet s ≡ true → has_bullet (skip_spaces n s) ≡ true
unfolding skip_spaces
has_bullet-skip_spaces zero s h = h
has_bullet-skip_spaces (suc n) [] h = h
has_bullet-skip_spaces (suc n) (c ∷ s) h = elim (has_bullet-cons c s h) [
  | inl bullet ↦ ground (arith, bullet)
  | inr (white, later) ↦ ground (arith, has_bullet-skip_spaces n s later)
]

pub has_bullet-fence_of : (s : Str) → has_bullet s ≡ true → fence_of s ≡ none
unfolding fence_of
has_bullet-fence_of s h = elim (List-cases (skip_spaces 3 s)) [
  | inl nothing ↦ rw (nothing, fence_of) refl
  | inr (c, t, found) ↦
      elim (has_bullet-cons c t
        (subst (λ x. has_bullet x ≡ true) found (has_bullet-skip_spaces 3 s h))) [
          | inl bullet ↦ ground (arith, found, bullet)
          | inr (white, later) ↦ ground (arith, found, white)
        ]
]

pub has_bullet-is_heading :
    (u : Folding) (heading s : Str) → has_bullet s ≡ true → is_heading u heading s ≡ false
unfolding is_heading h2
has_bullet-is_heading u heading [] h = refl
has_bullet-is_heading u heading (c ∷ s) h = elim (has_bullet-cons c s h) [
  | inl bullet ↦ ground (arith, bullet)
  | inr (white, later) ↦ ground (arith, white)
]

has_bullet-trim_front :
    (s : Str) → has_bullet s ≡ true → starts is_bullet (trim_front false 0 s) ≡ true
unfolding trim_front span ascii_space
has_bullet-trim_front [] h = absurd (ground arith)
has_bullet-trim_front (c ∷ s) h = elim (has_bullet-cons c s h) [
  | inl bullet ↦
      rw (space_length-black c s (ground (arith, bullet)) (ground (arith, bullet)), trim_front)
        bullet
  | inr (white, later) ↦
      rw (space_length-white c s (ground (arith, white)), trim_front)
        (has_bullet-trim_front s later)
]

-- The text in front of another starts as both together, unless it is empty.
starts-append :
    (p : ℕ → Bool) (t q : Str) → starts p (t ++ q) ≡ true → (t ≡ []) ⊎ (starts p t ≡ true)
starts-append p [] q h = inl refl
starts-append p (c ∷ t) q h = inr h

bullet-prefix :
    (t : Str)
    → (t ≡ []) ⊎ (starts is_bullet t ≡ true)
    → (has_prefix t (bytes "# ")
        || has_prefix t (bytes "## ")
        || str_eq t (bytes "#")
        || str_eq t (bytes "##"))
      ≡ false
unfolding has_prefix str_eq
bullet-prefix [] h = refl
bullet-prefix (c ∷ t) (inl h) = cc
bullet-prefix (c ∷ t) (inr h) = ground arith

pub has_bullet-ends_section : (s : Str) → has_bullet s ≡ true → ends_section s ≡ false
unfolding ends_section
has_bullet-ends_section s h =
    let (q, e) = trim_space-front s in
    let start : starts is_bullet (trim_space s ++ q) ≡ true =
      subst (λ x. starts is_bullet x ≡ true) e (has_bullet-trim_front s h) in
    bullet-prefix (trim_space s) (starts-append is_bullet (trim_space s) q start)
