-- ===== src/Wal/Flushing.antt =====
-- What `Append` and `Flush` of mind-palace/session/wal/wal.go lose and keep.
use clued.Base.{
  ℕ, ◌+◌, ◌≡◌, refl, sym, ap, subst, ◌∙◌, Bool, true, Option, none, some, List, [], ◌∷◌, ◌++◌,
  arith, Str, if◌then◌else◌, All, ++_assoc, ++_nil, Option-cases, Result-cases, inl, inr, Result,
  ok, err,
}
use clued.Wal.Log.{
  Json, Disk, Failure, unreachable, rejected, write_bytes, content_of, lines_of, flush_lines, flush,
}
use clued.Wal.Reading.{IsLine, whole, lines_of-whole, written-whole, whole-nil}

-- The disk does what is asked of it.
abbrev pub Works : Disk → Type 0
Works disk =
    (disk.dir_works ≡ true)
    × (disk.read_works ≡ true)
    × (disk.open_works ≡ true)
    × (disk.write_stops ≡ none)
    × (disk.chmod_works ≡ true)

-- The file is whole lines, each with its line break.
abbrev pub IsWhole : Option Str → List Str → Type 0
IsWhole file lines = All IsLine lines × (content_of file ≡ whole lines)

module _ {Doc : Type 0} (json : Json Doc) where
  -- The documents that the lines hold.
  abbrev pub documents : List Str → List Doc
  documents [] = []
  documents (line ∷ lines) = elim (json.unmarshal line) [
    | none ↦ documents lines
    | some doc ↦ doc ∷ documents lines
  ]

  pub documents-append : (xs ys : List Str) → documents (xs ++ ys) ≡ documents xs ++ documents ys
  documents-append [] ys = refl
  documents-append (x ∷ xs) ys = ground (arith, documents-append xs ys)

  -- The inserts that returned no error, in order, beside what the store does.
  abbrev pub logging :
      {Store : Type 0}
      → (Store → Doc → Store × Result Failure (Unit {0}))
      → Store × List Doc
      → Doc
      → (Store × List Doc) × Result Failure (Unit {0})
  logging insert (s, accepted) d =
      let (s', result) = insert s d in
      elim result [ ok u ↦ ((s', accepted ++ d ∷ []), ok u) | err e ↦ ((s', accepted), err e) ]

  -- The loop of `Flush` over a store whose inserts are logged does what it does without the log.
  pub flush_lines-logging :
      {Store : Type 0} (insert : Store → Doc → Store × Result Failure (Unit {0})) (s : Store)
      (accepted : List Doc) (lines : List Str)
      → ((flush_lines json (logging insert) (s, accepted) lines).0.0
          ≡ (flush_lines json insert s lines).0)
        × ((flush_lines json (logging insert) (s, accepted) lines).1
            ≡ (flush_lines json insert s lines).1)
  unfolding flush_lines
  flush_lines-logging insert s accepted [] = (refl, refl)
  flush_lines-logging insert s accepted (line ∷ lines) = elim (Option-cases (json.unmarshal line)) [
    | inl none_there ↦ ground (arith, flush_lines-logging insert s accepted lines)
    | inr (doc, read) ↦ elim (Result-cases (insert s doc).1) [
      | inl (u, done) ↦
          ground (arith, flush_lines-logging insert (insert s doc).0 (accepted ++ doc ∷ []) lines)
      | inr (rejected, failed) ↦
          ground (arith, flush_lines-logging insert (insert s doc).0 accepted lines)
      | inr (unreachable, failed) ↦ ground arith
    ]
  ]

  -- A store that tells what it holds: an insert that returns no error adds the document, one that
  -- returns an error adds nothing. A hypothesis on stores of that kind: the log of `logging` is of
  -- it; the store of the sessions is not quite, since it answers without an error where it drops a
  -- second MemorySaved event, and an insert that was cancelled may have been committed.
  pub record Recorded {Store : Type 0} (insert : Store → Doc → Store × Result Failure (Unit {0}))
      (held : Store → List Doc) : Type 0 where
    pub on_ok :
        (s : Store) (d : Doc) → (insert s d).1 ≡ ok tt → held (insert s d).0 ≡ held s ++ d ∷ []
    pub on_err :
        (s : Store) (d : Doc) (e : Failure) → (insert s d).1 ≡ err e → held (insert s d).0 ≡ held s

  -- How many of the documents pass the test.
  abbrev pub count : (Doc → Bool) → List Doc → ℕ
  count p [] = 0
  count p (d ∷ ds) = (if p d then 1 else 0) + count p ds

  count-append : (p : Doc → Bool) (xs ys : List Doc) → count p (xs ++ ys) ≡ count p xs + count p ys
  count-append p [] ys = omega arith
  count-append p (x ∷ xs) ys = omega (arith, count-append p xs ys)

  module _ {Store : Type 0} (insert : Store → Doc → Store × Result Failure (Unit {0}))
      (held : Store → List Doc) (r : Recorded insert held) where
    pub flush_lines-count :
        (p : Doc → Bool) (s : Store) (lines : List Str)
        → count p (held (flush_lines json insert s lines).0)
            + count p (documents (flush_lines json insert s lines).1)
          ≡ count p (held s) + count p (documents lines)
    unfolding flush_lines
    flush_lines-count p s [] = refl
    flush_lines-count p s (line ∷ lines) = elim (Option-cases (json.unmarshal line)) [
      | inl none_there ↦ ground (arith, flush_lines-count p s lines)
      | inr (doc, read) ↦ elim (Result-cases (insert s doc).1) [
        | inl (u, done) ↦ ground (
          arith,
          flush_lines-count p (insert s doc).0 lines,
          r.on_ok s doc,
          count-append p (held s) (doc ∷ []),
        )
        | inr (rejected, failed) ↦
            ground (arith, flush_lines-count p (insert s doc).0 lines, r.on_err s doc rejected)
        | inr (unreachable, failed) ↦ ground (arith, r.on_err s doc unreachable)
      ]
    ]

    -- While the store is out of reach nothing is inserted and no document is dropped.
    pub flush_lines-unreachable :
        (s : Store) (lines : List Str)
        → ((t : Store) (d : Doc) → (insert t d).1 ≡ err unreachable)
        → (held (flush_lines json insert s lines).0 ≡ held s)
          × (documents (flush_lines json insert s lines).1 ≡ documents lines)
    unfolding flush_lines
    flush_lines-unreachable s [] h = (refl, refl)
    flush_lines-unreachable s (line ∷ lines) h = elim (Option-cases (json.unmarshal line)) [
      | inl none_there ↦ ground (arith, flush_lines-unreachable s lines h)
      | inr (doc, read) ↦ ground (arith, h s doc, r.on_err s doc unreachable)
    ]

    pub flush_lines-all_ok :
        (s : Store) (lines : List Str)
        → ((t : Store) (d : Doc) → (insert t d).1 ≡ ok tt)
        → (held (flush_lines json insert s lines).0 ≡ held s ++ documents lines)
          × ((flush_lines json insert s lines).1 ≡ [])
    unfolding flush_lines
    flush_lines-all_ok s [] h = (sym (++_nil (held s)), refl)
    flush_lines-all_ok s (line ∷ lines) h = elim (Option-cases (json.unmarshal line)) [
      | inl none_there ↦ ground (arith, flush_lines-all_ok s lines h)
      | inr (doc, read) ↦ ground (
        arith,
        flush_lines-all_ok (insert s doc).0 lines h,
        h s doc,
        r.on_ok s doc (h s doc),
        ++_assoc (held s) (doc ∷ []) (documents lines),
      )
    ]

  module _ {Store : Type 0} (insert : Store → Doc → Store × Result Failure (Unit {0})) where
    -- Only lines of the list are kept.
    flush_lines-All :
        (P : Str → Type 0) (s : Store) (lines : List Str)
        → All P lines
        → All P (flush_lines json insert s lines).1
    unfolding flush_lines
    flush_lines-All P s [] h = h
    flush_lines-All P s (line ∷ lines) (l, ls) = elim (Option-cases (json.unmarshal line)) [
      | inl none_there ↦ rw (none_there, flush_lines) (flush_lines-All P s lines ls)
      | inr (doc, read) ↦ elim (Result-cases (insert s doc).1) [
        | inl (u, done) ↦ rw (read, done, flush_lines) (flush_lines-All P (insert s doc).0 lines ls)
        | inr (rejected, failed) ↦
            rw (read, failed, flush_lines) (l, flush_lines-All P (insert s doc).0 lines ls)
        | inr (unreachable, failed) ↦ rw (read, failed, flush_lines) (l, ls)
      ]
    ]

    flush-flush_lines-some :
        (disk : Disk) (text : Str) (lines : List Str) (s : Store)
        → Works disk
        → All IsLine lines
        → text ≡ whole lines
        → lines_of text ≡ lines
        → ((flush json insert disk (some text) s).0 ≡ (flush_lines json insert s lines).0)
          × IsWhole (flush json insert disk (some text) s).1 (flush_lines json insert s lines).1
          × ((flush json insert disk (some text) s).2 ≡ ok tt)
    unfolding flush
    flush-flush_lines-some disk text [] s (d, r, o, n, c) ls e read = (
      unfold flush_lines in rw (d, r, read) refl,
      (unfold flush_lines in tt, unfold flush_lines in rw (d, r, read) e),
      rw (d, r, read) refl,
    )
    flush-flush_lines-some disk text (line ∷ lines) s (d, r, o, n, c) ls e read =
        let kept = (flush_lines json insert s (line ∷ lines)).1 in
        (
          rw (d, r, read, o) refl,
          (
            flush_lines-All IsLine s (line ∷ lines) ls,
            rw (d, r, read, o) (unfold write_bytes in rw (n) (written-whole kept)),
          ),
          rw (d, r, read, o) (unfold write_bytes in rw (n, c) refl),
        )

    -- On a disk that works, `flush` is its loop over the lines of the file.
    pub flush-flush_lines :
        (disk : Disk) (file : Option Str) (lines : List Str) (s : Store)
        → Works disk
        → IsWhole file lines
        → ((flush json insert disk file s).0 ≡ (flush_lines json insert s lines).0)
          × IsWhole (flush json insert disk file s).1 (flush_lines json insert s lines).1
          × ((flush json insert disk file s).2 ≡ ok tt)
    unfolding flush flush_lines write_bytes
    flush-flush_lines disk none lines s w (ls, e) =
        subst
          (λ l.
            ((flush json insert disk none s).0 ≡ (flush_lines json insert s l).0)
            × IsWhole (flush json insert disk none s).1 (flush_lines json insert s l).1
            × ((flush json insert disk none s).2 ≡ ok tt))
          (sym (whole-nil lines e)) (refl, (tt, refl), refl)
    flush-flush_lines disk (some text) lines s w (ls, e) =
        let read : lines_of text ≡ lines = ap lines_of e ∙ lines_of-whole lines ls in
        flush-flush_lines-some disk text lines s w ls e read
