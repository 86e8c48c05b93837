-- ===== src/Markdown/WorkLog.antt =====
-- The work log of mind-palace/markdown/sections.go.
use clued.Base.{
  ◌+◌, not, ◌&&◌, none, some, List, [], ◌∷◌, ◌++◌, Str, bytes, is_empty, trim_space, has_prefix,
  ◌==◌, if◌then◌else◌, split_lines, join_lines, take, drop, length,
}
use clued.Markdown.{Folding, Line, lines, find_section}
use clued.Markdown.Criteria.{body_of, new_section}

abbrev pub work_log_heading : Str
work_log_heading = bytes "Work Log"

-- The lines up to the last that is not blank.
unfoldable pub trim_blank_rows : List Str → List Str
trim_blank_rows [] = []
trim_blank_rows (row ∷ rows) = elim (trim_blank_rows rows) [
  | [] ↦ if is_empty (trim_space row) then [] else row ∷ []
  | next ∷ rest ↦ row ∷ next ∷ rest
]

-- `strings.Join(rows, "")`.
abbrev pub concat_rows : List Str → Str
concat_rows [] = []
concat_rows (row ∷ rows) = row ++ concat_rows rows

-- `AppendWorkLog`.
unfoldable pub append_work_log : Folding → Str → Str → Str → Str
unfolding find_section trim_blank_rows
append_work_log u content timestamp entry =
    let line = bytes "### " ++ (timestamp ++ (bytes " - " ++ trim_space entry)) in
    elim (find_section u content work_log_heading) [
      | none ↦ new_section content work_log_heading line
      | some (start, end) ↦
          let rows = split_lines content in
          let behind = start + 1 + length (trim_blank_rows (body_of start end rows)) in
          let tail = drop behind rows in
          let last = (end == length rows) && is_empty (trim_space (concat_rows tail)) in
          join_lines (take behind rows ++ ([] ∷ line ∷ (if last then [] ∷ [] else tail)))
    ]

-- The loop of `WorkLogEntries`.
unfoldable pub entries_of : List Line → List Str
entries_of [] = []
entries_of (l ∷ body) =
    let rest = entries_of body in
    let t = trim_space l.text in
    if not l.in_fence && has_prefix t (bytes "### ") then trim_space (drop 4 t) ∷ rest else rest

unfoldable pub work_log_entries : Folding → Str → List Str
unfolding find_section entries_of
work_log_entries u content = elim (find_section u content work_log_heading) [
  | none ↦ []
  | some (start, end) ↦ entries_of (body_of start end (lines content))
]
