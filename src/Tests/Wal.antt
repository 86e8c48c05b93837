-- ===== src/Tests/Wal.antt =====
-- The write-ahead log on concrete files: a document is its JSON text.
use clued.Base.{
  ◌+◌, ◌≡◌, refl, true, Option, none, some, List, [], ◌∷◌, ◌++◌, Str, bytes, has_prefix, str_eq,
  trim_space, if◌then◌else◌, Result, ok, err,
}
use clued.Wal.Log.{
  Json, Disk, Failure, unreachable, rejected, append, flush, lines_of, flush_lines, write_bytes,
  written, is_blank,
}
use clued.Wal.Reading.{IsLine}
use clued.Wal.Flushing.{Works, IsWhole, logging, Recorded, count}
use clued.Wal.Pending.{pending, append-pending, flush-count, flush-all_ok, flush-unreachable}

abbrev json : Json Str
json = record {
  marshal = λ doc. some doc;
  unmarshal = λ line. if has_prefix line (bytes "{") then some line else none;
}

abbrev good_disk : Disk
good_disk = record {
  dir_works = true;
  read_works = true;
  open_works = true;
  write_stops = none;
  chmod_works = true;
}

abbrev first : Str
first = bytes "{1}"

abbrev second : Str
second = bytes "{2}"

-- A log with a broken line between two documents.
abbrev log_file : Option Str
log_file = some (bytes "{1}\nbroken\n{2}\n")

abbrev log_lines : List Str
log_lines = first ∷ bytes "broken" ∷ second ∷ []

good_disk-Works : Works good_disk
good_disk-Works = (refl, refl, refl, refl, refl)

log_file-IsWhole : IsWhole log_file log_lines
unfolding is_blank trim_space
log_file-IsWhole = (((refl, refl), ((refl, refl), ((refl, refl), tt))), refl)

example-IsLine : IsLine (bytes "{3}")
unfolding is_blank trim_space
example-IsLine = (refl, refl)

-- Stores are the documents they hold: one that takes all, one that is out of reach, and one that
-- rejects the first document.
abbrev take_all : List Str → Str → List Str × Result Failure (Unit {0})
take_all s doc = (s ++ doc ∷ [], ok tt)

abbrev take_none : List Str → Str → List Str × Result Failure (Unit {0})
take_none s doc = (s, err unreachable)

abbrev take_some : List Str → Str → List Str × Result Failure (Unit {0})
take_some s doc = if str_eq doc first then (s, err rejected) else (s ++ doc ∷ [], ok tt)

take_all-Recorded : Recorded json take_all (λ s. s)
take_all-Recorded = record { on_ok = λ s d h. refl; on_err = λ s d e h. cc }

take_none-Recorded : Recorded json take_none (λ s. s)
take_none-Recorded = record { on_ok = λ s d h. cc; on_err = λ s d e h. refl }

flush_rejected :
    flush json take_some good_disk log_file [] ≡ (second ∷ [], some (bytes "{1}\n"), ok tt)
unfolding flush lines_of trim_space flush_lines write_bytes written has_prefix str_eq
flush_rejected = refl

append-pending_example :
    (pending json (append json good_disk log_file (bytes "{3}")).0
      ≡ pending json log_file ++ bytes "{3}" ∷ [])
    × ((append json good_disk log_file (bytes "{3}")).1 ≡ ok tt)
unfolding has_prefix
append-pending_example =
    append-pending json good_disk log_file log_lines (bytes "{3}") (bytes "{3}") good_disk-Works
      log_file-IsWhole refl refl example-IsLine

flush-count_example :
    ((flush json (logging json take_some) good_disk log_file ([], [])).0.0
      ≡ (flush json take_some good_disk log_file []).0)
    × (pending json (flush json (logging json take_some) good_disk log_file ([], [])).1
        ≡ pending json (flush json take_some good_disk log_file []).1)
    × (count json (λ d. true) (flush json (logging json take_some) good_disk log_file ([], [])).0.1
          + count json (λ d. true) (pending json (flush json take_some good_disk log_file []).1)
        ≡ count json (λ d. true) (pending json log_file))
flush-count_example =
    flush-count json take_some (λ d. true) good_disk log_file log_lines [] good_disk-Works
      log_file-IsWhole

flush-all_ok_example :
    ((flush json take_all good_disk log_file []).0 ≡ pending json log_file)
    × (pending json (flush json take_all good_disk log_file []).1 ≡ [])
    × ((flush json take_all good_disk log_file []).2 ≡ ok tt)
flush-all_ok_example =
    flush-all_ok json take_all (λ s. s) take_all-Recorded good_disk log_file log_lines []
      good_disk-Works log_file-IsWhole (λ t d. refl)

flush-unreachable_example :
    ((flush json take_none good_disk log_file (first ∷ [])).0 ≡ first ∷ [])
    × (pending json (flush json take_none good_disk log_file (first ∷ [])).1
        ≡ pending json log_file)
flush-unreachable_example =
    flush-unreachable json take_none (λ s. s) take_none-Recorded good_disk log_file log_lines
      (first ∷ []) good_disk-Works log_file-IsWhole (λ t d. refl)
