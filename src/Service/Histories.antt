-- ===== src/Service/Histories.antt =====
-- What holds of the memory store after any calls of the service: every document of the kind that it
-- keeps passes `check` of mind-palace/service/service.go.
use clued.Base.{
  ◌≡◌, refl, ap, sym, ◌∙◌, Bool, true, false, Option, none, some, List, [], ◌∷◌, arith, Str, str_eq,
  All, if◌then◌else◌, List-cases, Result-cases, Result, ok, err, inl, inr,
}
use clued.Model.{Document, story}
use clued.Store.Plugin.{Failure}
use clued.Store.Memory.{Memory, set_doc, get, put, list}
use clued.Store.MemoryLaws.{memory-IsLawful}
use clued.Service.{
  Kind, plan_kind, story_kind, Error, PutFailure, fanned_out, refused, Palace, Action, World,
  behind,
}
use clued.Service.Saving.{check, normalized, stamped, store_checked, save}
use clued.Service.Saved.{IsLawful, written}

abbrev or_refused : Result Failure (Unit {0}) → Result PutFailure (Unit {0})
or_refused (ok u) = ok u
or_refused (err e) = err refused

-- The palace over the memory plugin.
abbrev pub over_memory : {S : Type 0} → Palace S → Palace Memory
over_memory p = record {
  get = get p.letters.lower;
  put = λ d s. ((put p.letters.lower d s).0, or_refused (put p.letters.lower d s).1);
  list = list p.letters.lower;
  plans = p.plans;
  stories = p.stories;
  timestamp = p.timestamp;
  reformat = p.reformat;
  reformat_date = p.reformat_date;
  schema_problems = p.schema_problems;
  letters = p.letters;
  folding = p.folding;
}

store_checked-store :
    {S : Type 0} (p : Palace S) (k : Kind) (action : Action) (op : Str) (d : Document) (w : World S)
    → (store_checked p k action op d w).0.store ≡ (p.put d w.store).0
unfolding store_checked
store_checked-store p k action op d w = elim (Result-cases (p.put d w.store).1) [
  | inl (u, e) ↦ rw (e, store_checked) refl
  | inr (fanned_out, e) ↦ rw (e, store_checked) refl
  | inr (refused, e) ↦ rw (e, store_checked) refl
]

or_refused-ok : (r : Result Failure (Unit {0})) → or_refused r ≡ ok tt → r ≡ ok tt
or_refused-ok (ok u) h = refl
or_refused-ok (err e) h = cc

pub over_memory-IsLawful : {S : Type 0} (p : Palace S) → IsLawful (over_memory p)
over_memory-IsLawful p = record {
  get-put = λ d s h.
      (memory-IsLawful p.letters.lower).get-put d s (or_refused-ok (put p.letters.lower d s).1 h);
}

-- The kind that the documents of this kind's name have.
abbrev pub kind_of : Str → Kind
kind_of name = if str_eq name story then story_kind else plan_kind

module _ {S : Type 0} (p : Palace S) where
  -- A document that `check` accepts, at whatever time.
  abbrev pub IsClean : Document → Type 0
  IsClean d = check p (kind_of d.kind) d ≡ []

  abbrev pub Clean : World Memory → Type 0
  Clean w = All IsClean w.store.docs

  -- The palace over the memory plugin, at a time.
  abbrev pub at_time : Str → Palace Memory
  at_time now = record (over_memory p) { timestamp = now }

  set_doc-All :
      (d : Document) (docs : List Document)
      → IsClean d
      → All IsClean docs
      → All IsClean (set_doc d docs)
  unfolding set_doc
  set_doc-All d [] c h = (c, tt)
  set_doc-All d (e ∷ docs) c (f, h) = ground (arith, set_doc-All d docs c h)

  put-All :
      (d : Document) (s : Memory)
      → IsClean d
      → All IsClean s.docs
      → All IsClean (put p.letters.lower d s).0.docs
  unfolding put
  put-All d s c h = ground (arith, set_doc-All d s.docs c h)

  check-at : (now : Str) (k : Kind) (d : Document) → check (at_time now) k d ≡ check p k d
  unfolding check
  check-at now k d = refl

  written-kind :
      (now : Str) (k : Kind) (action : Action) (d : Document)
      → (written (at_time now) k action d).kind ≡ k.name
  unfolding stamped normalized
  written-kind now k action d = refl

  pub save-Clean :
      (now : Str) (k : Kind) (action : Action) (op : Str) (d : Document) (w : World Memory)
      → kind_of k.name ≡ k
      → Clean w
      → Clean (save (at_time now) k action op d w).0
  unfolding save
  save-Clean now k action op d w same h =
      let x = written (at_time now) k action d in
      elim (List-cases (check (at_time now) k x)) [
        | inr (problem, more, found) ↦ rw (found, save) h
        | inl clean ↦
            let kind : kind_of x.kind ≡ k = ap kind_of (written-kind now k action d) ∙ same in
            let accepted : IsClean x =
              ap (λ j. check p j x) kind ∙ (sym (check-at now k x) ∙ clean) in
            let stored : Clean (store_checked (at_time now) k action op x w).0 =
              rw (store_checked-store (at_time now) k action op x w)
                (put-All x w.store accepted h) in
            rw (clean, save) stored
      ]

  pub behind-Clean :
      {A : Type 0} (w : World Memory) (r : Result Error A)
      (f : A → World Memory × Result Error Document)
      → Clean w
      → ((a : A) → Clean (f a).0)
      → Clean (behind w r f).0
  behind-Clean w (ok a) f h g = g a
  behind-Clean w (err e) f h g = h

  pub if-Clean :
      (b : Bool) (w v : World Memory × Result Error Document)
      → Clean w.0
      → Clean v.0
      → Clean (if b then w else v).0
  if-Clean true w v h g = h
  if-Clean false w v h g = g

  pub option-Clean :
      {A : Type 0} (o : Option A) (v : World Memory × Result Error Document)
      (f : A → World Memory × Result Error Document)
      → Clean v.0
      → ((a : A) → Clean (f a).0)
      → Clean (elim o as (λ x. World Memory × Result Error Document) [ none ↦ v | some a ↦ f a ]).0
  option-Clean none v f h g = h
  option-Clean (some a) v f h g = g a

  pub result-Clean :
      {E A : Type 0} (r : Result E A) (v : World Memory × Result Error Document)
      (f : A → World Memory × Result Error Document)
      → Clean v.0
      → ((a : A) → Clean (f a).0)
      → Clean (elim r as (λ x. World Memory × Result Error Document) [ err e ↦ v | ok a ↦ f a ]).0
  result-Clean (ok a) v f h g = g a
  result-Clean (err e) v f h g = h
