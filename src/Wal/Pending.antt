-- ===== src/Wal/Pending.antt =====
-- The documents that wait in the log of mind-palace/session/wal/wal.go, as `Append` and `Flush` see
-- them.
use clued.Base.{
  ◌+◌, ◌≡◌, refl, sym, ap, ◌∙◌, Result-cases, inl, inr, arith, Bool, Option, some, List, [], ◌∷◌,
  ◌++◌, Str, All-append_one, Result, ok, err,
}
use clued.Base.{newline}
use clued.Wal.Log.{
  Json, Disk, Failure, unreachable, write_bytes, content_of, lines_of, append, flush_lines, flush,
}
use clued.Wal.Reading.{IsLine, lines_of-whole, whole-append}
use clued.Wal.Flushing.{
  Works, IsWhole, documents, documents-append, logging, flush_lines-logging, Recorded, count,
  flush_lines-count, flush_lines-all_ok, flush_lines-unreachable, flush-flush_lines,
}

module _ {Doc : Type 0} (json : Json Doc) where
  -- The documents that a flush would find in the file.
  abbrev pub pending : Option Str → List Doc
  pending file = documents json (lines_of (content_of file))

  pending-IsWhole :
      (file : Option Str) (lines : List Str)
      → IsWhole file lines
      → pending file ≡ documents json lines
  pending-IsWhole file lines (ls, e) = ap (documents json) (ap lines_of e ∙ lines_of-whole lines ls)

  append-IsWhole :
      (disk : Disk) (file : Option Str) (lines : List Str) (doc : Doc) (line : Str)
      → Works disk
      → IsWhole file lines
      → json.marshal doc ≡ some line
      → IsLine line
      → IsWhole (append json disk file doc).0 (lines ++ line ∷ [])
        × ((append json disk file doc).1 ≡ ok tt)
  unfolding append write_bytes
  append-IsWhole disk file lines doc line (d, r, o, n, c) (ls, e) m l = (
    (
      All-append_one IsLine lines line ls l,
      rw (d, m, o, append)
          (rw (n) (ap (λ s. s ++ (line ++ newline ∷ [])) e ∙ sym (whole-append lines line))),
    ),
    rw (d, m, o, append) (rw (n, c) refl),
  )

  -- On a disk that works, `Append` puts a document behind those that wait, where json.Unmarshal
  -- reads back what json.Marshal wrote, which is one line, and the file is whole lines.
  pub append-pending :
      (disk : Disk) (file : Option Str) (lines : List Str) (doc : Doc) (line : Str)
      → Works disk
      → IsWhole file lines
      → json.marshal doc ≡ some line
      → json.unmarshal line ≡ some doc
      → IsLine line
      → (pending (append json disk file doc).0 ≡ pending file ++ doc ∷ [])
        × ((append json disk file doc).1 ≡ ok tt)
  append-pending disk file lines doc line w h m u l =
      let (whole', done) = append-IsWhole disk file lines doc line w h m l in
      let added : documents json (line ∷ []) ≡ doc ∷ [] = rw (u, documents) refl in
      (
        pending-IsWhole (append json disk file doc).0 (lines ++ line ∷ []) whole'
            ∙ documents-append json lines (line ∷ [])
            ∙ (ap (λ ds. documents json lines ++ ds) added
                ∙ ap (λ ds. ds ++ doc ∷ []) (sym (pending-IsWhole file lines h))),
        done,
      )

  logging-Recorded :
      {Store : Type 0} (insert : Store → Doc → Store × Result Failure (Unit {0}))
      → Recorded json (logging json insert) (λ s. s.1)
  logging-Recorded insert = record {
    on_ok = λ s d h. elim (Result-cases (insert (s.0) d).1) [
      | inl (u, done) ↦ ground (arith, done)
      | inr (e, failed) ↦ absurd (ground (arith, failed))
    ];
    on_err = λ s d e h. elim (Result-cases (insert (s.0) d).1) [
      | inl (u, done) ↦ absurd (ground (arith, done))
      | inr (e', failed) ↦ ground (arith, failed)
    ];
  }

  -- On a disk that works, `Flush` neither loses a document that waits nor keeps one that an insert
  -- took: of any kind of document, as many waited before it as it passed to inserts that returned
  -- no error, and wait after it. What the inserts do to the store is free. They are counted in the
  -- same run with the inserts logged, whose store and waiting documents are those of `Flush`. The
  -- file is whole lines.
  pub flush-count :
      {Store : Type 0} (insert : Store → Doc → Store × Result Failure (Unit {0})) (p : Doc → Bool)
      (disk : Disk) (file : Option Str) (lines : List Str) (s : Store)
      → Works disk
      → IsWhole file lines
      → ((flush json (logging json insert) disk file (s, [])).0.0
          ≡ (flush json insert disk file s).0)
        × (pending (flush json (logging json insert) disk file (s, [])).1
            ≡ pending (flush json insert disk file s).1)
        × (count json p (flush json (logging json insert) disk file (s, [])).0.1
              + count json p (pending (flush json insert disk file s).1)
            ≡ count json p (pending file))
  flush-count insert p disk file lines s w h =
      let (store, file', done) = flush-flush_lines json insert disk file lines s w h in
      let (store_log, file_log, done_log) =
        flush-flush_lines json (logging json insert) disk file lines (s, []) w h in
      let (same, kept) = flush_lines-logging json insert s [] lines in
      let waits =
        pending-IsWhole (flush json insert disk file s).1 (flush_lines json insert s lines).1
          file' in
      let waits_log =
        pending-IsWhole (flush json (logging json insert) disk file (s, [])).1
          (flush_lines json (logging json insert) (s, []) lines).1 file_log in
      let counted =
        flush_lines-count json (logging json insert) (λ t. t.1) (logging-Recorded insert) p (s, [])
          lines in
      (
        ap (λ t. t.0) store_log ∙ same ∙ sym store,
        waits_log ∙ ap (documents json) kept ∙ sym waits,
        rw (store_log, waits, pending-IsWhole file lines h, sym kept) (omega (arith, counted)),
      )

  module _ {Store : Type 0} (insert : Store → Doc → Store × Result Failure (Unit {0}))
      (held : Store → List Doc) (r : Recorded json insert held) where
    -- In a store that holds what its inserts accept and nothing else, when it takes every document,
    -- `Flush` stores all that wait, in the order of their `Append`, and none waits after it, on a
    -- disk that works.
    pub flush-all_ok :
        (disk : Disk) (file : Option Str) (lines : List Str) (s : Store)
        → Works disk
        → IsWhole file lines
        → ((t : Store) (d : Doc) → (insert t d).1 ≡ ok tt)
        → (held (flush json insert disk file s).0 ≡ held s ++ pending file)
          × (pending (flush json insert disk file s).1 ≡ [])
          × ((flush json insert disk file s).2 ≡ ok tt)
    flush-all_ok disk file lines s w h o =
        let (store, file', done) = flush-flush_lines json insert disk file lines s w h in
        let (all, nothing) = flush_lines-all_ok json insert held r s lines o in
        (
          ap held store ∙ all ∙ ap (λ ds. held s ++ ds) (sym (pending-IsWhole file lines h)),
          pending-IsWhole (flush json insert disk file s).1 (flush_lines json insert s lines).1
                file'
              ∙ ap (documents json) nothing,
          done,
        )

    -- While a store that holds what its inserts accept and nothing else is out of reach, `Flush`
    -- stores nothing, and what waits is what waited, in the same order, on a disk that works.
    pub flush-unreachable :
        (disk : Disk) (file : Option Str) (lines : List Str) (s : Store)
        → Works disk
        → IsWhole file lines
        → ((t : Store) (d : Doc) → (insert t d).1 ≡ err unreachable)
        → (held (flush json insert disk file s).0 ≡ held s)
          × (pending (flush json insert disk file s).1 ≡ pending file)
    flush-unreachable disk file lines s w h o =
        let (store, file', done) = flush-flush_lines json insert disk file lines s w h in
        let (same, waits) = flush_lines-unreachable json insert held r s lines o in
        (
          ap held store ∙ same,
          pending-IsWhole (flush json insert disk file s).1 (flush_lines json insert s lines).1
                file'
              ∙ waits
              ∙ sym (pending-IsWhole file lines h),
        )
