-- ===== src/Markdown/FrontMatter.antt =====
-- `Split` and `Render` of mind-palace/markdown/markdown.go, on front matter that is YAML text already.
use clued.Base.{
  ℕ, ◌≡◌, refl, ap, ◌∙◌, Bool, true, false, not, ◌&&◌, Option, none, some, List, [], ◌∷◌, ◌++◌,
  arith, Str, bytes, is_empty, has_prefix, str_eq, drop, any, any-append, ◌==◌, if◌then◌else◌,
  Result, ok, err, All, ++_assoc, ◌≤◌, length, length-split_lines, newline, has_break, push_byte,
  split_lines, split_lines-line, join_lines,
}
use clued.Markdown.{is_tab_or_space, trim_newlines}

-- The errors of `Split`.
pub data Malformed : Type 0 where
  no_front_matter not_closed : Malformed

abbrev pub return : ℕ
return = 13

-- `strings.ReplaceAll(doc, "\r\n", "\n")`
unfoldable pub unix_breaks : Str → Str
unix_breaks [] = []
unix_breaks (c ∷ s) =
    let rest = unix_breaks s in
    if (c == return) && has_prefix s (newline ∷ []) then rest else c ∷ rest

-- `strings.TrimPrefix` of the byte order mark.
unfoldable pub trim_mark : Str → Str
trim_mark s = if has_prefix s (0xef ∷ 0xbb ∷ 0xbf ∷ []) then drop 3 s else s

abbrev pub delimiter : Str
delimiter = bytes "---"

-- `strings.TrimRight(line, " \t")`
unfoldable pub trim_right : Str → Str
trim_right [] = []
trim_right (c ∷ s) =
    let rest = trim_right s in if is_empty rest && is_tab_or_space c then [] else c ∷ rest

abbrev pub is_delimiter : Str → Bool
is_delimiter row = str_eq (trim_right row) delimiter

-- The rows before the first delimiter, and those behind it.
unfoldable pub cut_rows : List Str → Option (List Str × List Str)
cut_rows [] = none
cut_rows (row ∷ rows) = elim (is_delimiter row) [
  | true ↦ some ([], rows)
  | false ↦ elim (cut_rows rows) [ none ↦ none | some (front, behind) ↦ some (row ∷ front, behind) ]
]

-- The rows, each with its line break.
abbrev pub unlines : List Str → Str
unlines [] = []
unlines (row ∷ rows) = row ++ (newline ∷ unlines rows)

unfoldable pub split : Str → Result Malformed (Str × Str)
split doc =
    let s = trim_mark (unix_breaks doc) in
    if not (has_prefix s (bytes "---" ++ newline ∷ []))
    then (if str_eq s delimiter then err not_closed else err no_front_matter)
    else elim (cut_rows (split_lines (drop 4 s))) [
      | none ↦ err not_closed
      | some (front, behind) ↦ ok (unlines front, trim_newlines (join_lines behind))
    ]

-- Whether the last byte is a line break.
abbrev pub ends_in_break : Str → Bool
ends_in_break [] = false
ends_in_break (c ∷ []) = c == newline
ends_in_break (c ∷ d ∷ s) = ends_in_break (d ∷ s)

-- The content as `Render` writes it.
unfoldable pub tidy_content : Str → Str
unfolding trim_newlines
tidy_content content =
    let c = trim_newlines content in
    if not (is_empty c) && not (ends_in_break c) then c ++ newline ∷ [] else c

unfoldable pub render : Str → Str → Str
render raw content =
    delimiter ++ (newline ∷ (raw ++ (delimiter ++ (newline ∷ newline ∷ tidy_content content))))

unix_breaks-same : (s : Str) → any (λ c. c == return) s ≡ false → unix_breaks s ≡ s
unfolding unix_breaks any
unix_breaks-same [] h = refl
unix_breaks-same (c ∷ s) h = ground (arith, unix_breaks-same s)

join_lines-push_byte :
    (c : ℕ) (rows : List Str) → join_lines (push_byte c rows) ≡ c ∷ join_lines rows
unfolding join_lines push_byte
join_lines-push_byte c [] = refl
join_lines-push_byte c (l ∷ []) = refl
join_lines-push_byte c (l ∷ k ∷ rows) = refl

join_lines-empty :
    (rows : List Str) → 1 ≤ length rows → join_lines ([] ∷ rows) ≡ newline ∷ join_lines rows
unfolding join_lines
join_lines-empty [] h = absurd (omega arith)
join_lines-empty (l ∷ rows) h = refl

join_lines-split_lines : (s : Str) → join_lines (split_lines s) ≡ s
unfolding split_lines join_lines
join_lines-split_lines [] = refl
join_lines-split_lines (c ∷ s) = ground (
  arith,
  join_lines-push_byte c (split_lines s),
  join_lines-empty (split_lines s) (length-split_lines s),
  join_lines-split_lines s,
)

split_lines-unlines :
    (rows : List Str) (s : Str)
    → All (λ r. has_break r ≡ false) rows
    → split_lines (unlines rows ++ s) ≡ rows ++ split_lines s
split_lines-unlines [] s h = refl
split_lines-unlines (row ∷ rows) s (b, h) =
    ap split_lines (++_assoc row (newline ∷ unlines rows) s)
    ∙ split_lines-line row (unlines rows ++ s) b
    ∙ ap (λ t. row ∷ t) (split_lines-unlines rows s h)

cut_rows-append :
    (rows more : List Str)
    → All (λ r. is_delimiter r ≡ false) rows
    → cut_rows (rows ++ (delimiter ∷ more)) ≡ some (rows, more)
unfolding cut_rows trim_right str_eq
cut_rows-append [] more h = refl
cut_rows-append (row ∷ rows) more (d, h) = rw (d, cut_rows-append rows more h, cut_rows) refl

abbrev starts_in_break : Str → Bool
starts_in_break [] = false
starts_in_break (c ∷ s) = c == newline

starts-trim_newlines : (s : Str) → starts_in_break (trim_newlines s) ≡ false
unfolding trim_newlines
starts-trim_newlines [] = refl
starts-trim_newlines (c ∷ s) = ground (arith, starts-trim_newlines s)

trim_newlines-same : (s : Str) → starts_in_break s ≡ false → trim_newlines s ≡ s
unfolding trim_newlines
trim_newlines-same [] h = refl
trim_newlines-same (c ∷ s) h = ground arith

starts-end :
    (t : Str)
    → starts_in_break t ≡ false
    → is_empty t ≡ false
    → starts_in_break (t ++ newline ∷ []) ≡ false
starts-end [] h e = cc
starts-end (c ∷ t) h e = h

trim_newlines-tidy_content :
    (content : Str) → trim_newlines (tidy_content content) ≡ tidy_content content
unfolding tidy_content
trim_newlines-tidy_content content =
    let t = trim_newlines content in
    let start = starts-trim_newlines content in
    ground (
      arith,
      trim_newlines-same t start,
      trim_newlines-same (t ++ newline ∷ []),
      starts-end t start,
    )

abbrev pub has_return : Str → Bool
has_return s = any (λ c. c == return) s

has_return-trim_newlines : (s : Str) → has_return s ≡ false → has_return (trim_newlines s) ≡ false
unfolding trim_newlines any
has_return-trim_newlines [] h = refl
has_return-trim_newlines (c ∷ s) h = ground (arith, has_return-trim_newlines s)

has_return-tidy_content : (s : Str) → has_return s ≡ false → has_return (tidy_content s) ≡ false
unfolding tidy_content any
has_return-tidy_content s h = ground (
  arith,
  has_return-trim_newlines s h,
  any-append (λ c. c == return) (trim_newlines s) (newline ∷ []),
)

has_return-render :
    (raw content : Str)
    → has_return raw ≡ false
    → has_return content ≡ false
    → has_return (render raw content) ≡ false
unfolding render any
has_return-render raw content h g = ground (
  arith,
  has_return-tidy_content content g,
  any-append (λ c. c == return) raw (delimiter ++ (newline ∷ newline ∷ tidy_content content)),
)

trim_newlines-break : (s : Str) → trim_newlines (newline ∷ s) ≡ trim_newlines s
unfolding trim_newlines
trim_newlines-break s = refl

-- `Split` reads the front matter and the content back from what `Render` writes, the content with
-- no line breaks before it and one at its end. The front matter is rows of YAML, none of which reads
-- as a delimiter, and neither text holds a carriage return.
pub split-render :
    (rows : List Str) (content : Str)
    → All (λ r. has_break r ≡ false) rows
    → All (λ r. is_delimiter r ≡ false) rows
    → has_return (unlines rows) ≡ false
    → has_return content ≡ false
    → split (render (unlines rows) content) ≡ ok (unlines rows, tidy_content content)
unfolding split render trim_mark has_prefix
split-render rows content b d h g =
    let doc = render (unlines rows) content in
    let c = tidy_content content in
    let same : unix_breaks doc ≡ doc =
      unix_breaks-same doc (has_return-render (unlines rows) content h g) in
    let marked : trim_mark (unix_breaks doc) ≡ doc = ap trim_mark same ∙ refl in
    let cut : split_lines (drop 4 doc) ≡ rows ++ (delimiter ∷ split_lines (newline ∷ c)) =
      split_lines-unlines rows (delimiter ++ (newline ∷ newline ∷ c)) b
      ∙ ap (λ t. rows ++ t) (split_lines-line delimiter (newline ∷ c) refl) in
    let parts : cut_rows (split_lines (drop 4 doc)) ≡ some (rows, split_lines (newline ∷ c)) =
      ap cut_rows cut ∙ cut_rows-append rows (split_lines (newline ∷ c)) d in
    let content_back : trim_newlines (join_lines (split_lines (newline ∷ c))) ≡ c =
      ap trim_newlines (join_lines-split_lines (newline ∷ c))
      ∙ trim_newlines-break c
      ∙ trim_newlines-tidy_content content in
    rw (marked, parts, content_back, split) refl
