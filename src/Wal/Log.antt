-- ===== src/Wal/Log.antt =====
-- `Append` and `Flush` of mind-palace/session/wal/wal.go. The file is its bytes, or `none` where it
-- does not exist. encoding/json, the disk and the store behind `insert` come from outside.
use clued.Base.{
  ℕ, Bool, not, Option, none, some, List, [], ◌∷◌, ◌++◌, Str, is_empty, trim_space, keep, take,
  if◌then◌else◌, newline, split_lines, join_lines, Result, ok, err, refuse_if,
}

-- `json.Marshal` and `json.Unmarshal` of a document.
pub record Json (Doc : Type 0) : Type 0 where
  pub marshal : Doc → Option Str
  pub unmarshal : Str → Option Doc

-- What the disk does in one call: whether MkdirAll or Stat, ReadFile, OpenFile and Chmod succeed,
-- and how many bytes are written before a write fails (`none` if it does not).
pub record Disk : Type 0 where
  pub dir_works : Bool
  pub read_works : Bool
  pub open_works : Bool
  pub write_stops : Option ℕ
  pub chmod_works : Bool

pub data Error : Type 0 where
  marshal_failed disk_failed : Error

-- An error of `insert`: one that is `context.DeadlineExceeded` or `context.Canceled`, or another.
pub data Failure : Type 0 where
  unreachable rejected : Failure

-- Writes behind what the open file holds, then sets its mode.
unfoldable pub write_bytes : Disk → Str → Str → Str × Result Error (Unit {0})
write_bytes disk held text = elim disk.write_stops [
  | some n ↦ (held ++ take n text, err disk_failed)
  | none ↦ (held ++ text, refuse_if (not disk.chmod_works) disk_failed)
]

abbrev pub content_of : Option Str → Str
content_of none = []
content_of (some text) = text

unfoldable pub is_blank : Str → Bool
is_blank line = is_empty (trim_space line)

-- The lines of the file that hold more than white space.
unfoldable pub lines_of : Str → List Str
unfolding split_lines is_blank keep
lines_of text = keep (λ line. not (is_blank line)) (split_lines text)

-- What `Flush` writes back.
unfoldable pub written : List Str → Str
unfolding join_lines
written [] = []
written (line ∷ lines) = join_lines (line ∷ lines) ++ newline ∷ []

module _ {Doc : Type 0} (json : Json Doc) where
  unfoldable pub append : Disk → Option Str → Doc → Option Str × Result Error (Unit {0})
  unfolding write_bytes
  append disk file event =
      if not disk.dir_works then (file, err disk_failed) else elim (json.marshal event) [
        | none ↦ (file, err marshal_failed)
        | some text ↦
            if not disk.open_works
            then (file, err disk_failed)
            else let (file', result) = write_bytes disk (content_of file) (text ++ newline ∷ []) in
              (some file', result)
      ]

  module _ {Store : Type 0} (insert : Store → Doc → Store × Result Failure (Unit {0})) where
    -- The loop of `Flush`: the store after it, and the lines to keep.
    unfoldable pub flush_lines : Store → List Str → Store × List Str
    flush_lines s [] = (s, [])
    flush_lines s (line ∷ lines) = elim (json.unmarshal line) [
      | none ↦ flush_lines s lines
      | some doc ↦
          let (s', result) = insert s doc in
          let (s'', kept) = flush_lines s' lines in
          elim result [
            | ok _ ↦ (s'', kept)
            | err rejected ↦ (s'', line ∷ kept)
            | err unreachable ↦ (s', line ∷ lines)
          ]
    ]

    unfoldable pub flush : Disk → Option Str → Store → Store × Option Str × Result Error (Unit {0})
    flush disk none s = (s, none, ok tt)
    flush disk (some text) s =
        if not disk.dir_works
        then (s, some text, err disk_failed)
        else if not disk.read_works
        then (s, some text, err disk_failed)
        else elim (lines_of text) [
          | [] ↦ (s, some text, ok tt)
          | line ∷ lines ↦
              let (s', failed) = flush_lines s (line ∷ lines) in
              if not disk.open_works
              then (s', some text, err disk_failed)
              else let (file', result) = write_bytes disk [] (written failed) in
                (s', some file', result)
        ]
