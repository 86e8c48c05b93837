-- ===== src/Service/Resolving.antt =====
-- `Resolve` of mind-palace/service/service.go, and the dates and timestamps of
-- mind-palace/model/model.go.
use clued.Base.{
  Bool, true, false, Option, none, some, List, [], ◌∷◌, ◌++◌, Str, bytes, is_empty, trim_space,
  take, drop, ◌==◌, reverse, if◌then◌else◌, Result, ok, err,
}
use clued.Model.{FrontMatter, Document}
use clued.Model.Ids.{normalize_id, is_id, parse_file_name}
use clued.Store.Plugin.{Failure}
use clued.Service.{Palace, Error, bad_request, not_found, storage}

-- `in[10] == 't'` becomes `T`.
unfoldable pub upper_t : Str → Str
upper_t s = elim (drop 10 s) [
  | [] ↦ s
  | c ∷ rest ↦ if c == b't' then take 10 s ++ (b'T' ∷ rest) else s
]

-- A `z` at the end becomes `Z`.
unfoldable pub upper_z : Str → Str
upper_z s = elim (reverse s) [
  | [] ↦ s
  | c ∷ front ↦ if c == b'z' then reverse front ++ b'Z' ∷ [] else s
]

abbrev pub layouts : List Str
layouts =
    bytes "2006-01-02T15:04:05.999999999Z07:00"
    ∷ bytes "2006-01-02 15:04:05 UTC"
    ∷ bytes "2006-01-02 15:04:05"
    ∷ bytes "2006-01-02"
    ∷ []

unfoldable pub first_layout : (Str → Str → Option Str) → Str → List Str → Option Str
first_layout reformat s [] = none
first_layout reformat s (layout ∷ rest) = elim (reformat layout s) [
  | some t ↦ some t
  | none ↦ first_layout reformat s rest
]

-- `NormalizeTimestamp`; `none` is its error.
unfoldable pub normalize_timestamp : {S : Type 0} → Palace S → Str → Option Str
unfolding upper_t upper_z first_layout
normalize_timestamp p s =
    if is_empty s then some [] else first_layout p.reformat (upper_z (upper_t s)) layouts

-- `NormalizeDate`
unfoldable pub normalize_date : {S : Type 0} → Palace S → Str → Option Str
unfolding normalize_timestamp
normalize_date p given =
    let s = trim_space given in
    if is_empty s
    then some []
    else elim (normalize_timestamp p s) [ none ↦ none | some t ↦ p.reformat_date t ]

abbrev pub or_kept : Option Str → Str → Str
or_kept none s = s
or_kept (some t) s = t

-- `NormalizeDates`, on a front matter whose `Tags` is no null.
unfoldable pub normalize_dates : {S : Type 0} → Palace S → FrontMatter → FrontMatter
unfolding normalize_date
normalize_dates p fm = record fm {
  due_date = or_kept (normalize_date p fm.due_date) fm.due_date;
  planned_start = or_kept (normalize_date p fm.planned_start) fm.planned_start;
  planned_end = or_kept (normalize_date p fm.planned_end) fm.planned_end;
}

-- `NormalizeTimestamps`
unfoldable pub normalize_timestamps : {S : Type 0} → Palace S → FrontMatter → FrontMatter
unfolding normalize_timestamp
normalize_timestamps p fm = record fm {
  created = or_kept (normalize_timestamp p fm.created) fm.created;
  updated = or_kept (normalize_timestamp p fm.updated) fm.updated;
  started = or_kept (normalize_timestamp p fm.started) fm.started;
  completed = or_kept (normalize_timestamp p fm.completed) fm.completed;
}

-- The id that an identifier names.
unfoldable pub target_id : {S : Type 0} → Palace S → Str → Option Str
target_id p identifier =
    let id = normalize_id identifier in
    if is_id id then some id else elim (parse_file_name p.letters id) [
      | none ↦ none
      | some (file_id, typ, slug) ↦ some file_id
    ]

-- The document as `Resolve` returns what it read.
abbrev pub resolved : {S : Type 0} → Palace S → Str → Document → Document
resolved p kind d = record d { kind = kind; front_matter = normalize_dates p d.front_matter }

unfoldable pub resolve : {S : Type 0} → Palace S → Str → Str → S → Result Error Document
unfolding target_id
resolve p kind identifier s =
    let id = trim_space identifier in
    if is_empty id then err bad_request else elim (target_id p id) [
      | none ↦ err not_found
      | some i ↦ elim (p.get kind i s) [
        | err Failure.not_found ↦ err Error.not_found
        | err Failure.precondition ↦ err storage
        | err Failure.failed ↦ err storage
        | ok d ↦ ok (resolved p kind d)
      ]
    ]

-- The function `exists`.
unfoldable pub doc_exists : {S : Type 0} → Palace S → Str → Str → S → Result Error Bool
doc_exists p kind id s = elim (p.get kind id s) [
  | err Failure.not_found ↦ ok false
  | err Failure.precondition ↦ err storage
  | err Failure.failed ↦ err storage
  | ok d ↦ ok true
]
