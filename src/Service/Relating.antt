-- ===== src/Service/Relating.antt =====
-- The links between documents in mind-palace/service/links.go.
use clued.Base.{
  Bool, true, false, not, ◌&&◌, ◌||◌, Option, none, some, List, [], ◌∷◌, ◌++◌, map, any, Str, bytes,
  is_empty, str_eq, trim_space, contains, lookup, push_byte, ◌==◌, if◌then◌else◌, Result, ok, err,
  ◌>>=◌, ◌>>◌, refuse_if,
}
use clued.Model.{Link, Document, id_of, plan, story}
use clued.Model.Ids.{is_digit, is_id, normalize_id}
use clued.Model.Linking.{plan_links, story_links, set_plan_links, set_story_links, filter_links}
use clued.Markdown.{span}
use clued.Service.{Kind, Error, bad_request, unknown_section, Palace, updated, World, behind}
use clued.Service.Resolving.{resolve, doc_exists}
use clued.Service.Saving.{save}

abbrev pub is_nil {ℓ} : {A : Type ℓ} → List A → Bool
is_nil [] = true
is_nil (x ∷ xs) = false

-- `SectionNumberRe`
unfoldable pub is_section_number : Str → Bool
unfolding span
is_section_number s =
    let (first, rest) = span is_digit s in
    not (is_empty first) && elim rest as (λ x. Bool) [
      | [] ↦ true
      | c ∷ t ↦
          let (second, more) = span is_digit t in
          (c == b'.') && not (is_empty second) && is_empty more
    ]

abbrev pub has_entry {ℓ} : {A : Type ℓ} → Option A → Bool
has_entry none = false
has_entry (some a) = true

-- `checkPlanSections`
unfoldable pub check_plan_sections : Document → List Str → Result Error (Unit {0})
unfolding is_section_number
check_plan_sections target [] = ok tt
check_plan_sections target (section ∷ sections) =
    refuse_if (not (is_section_number section)) bad_request
    >> (refuse_if (not (has_entry (lookup section target.front_matter.progress))) unknown_section
        >> check_plan_sections target sections)

-- `checkPlanLink`
unfoldable pub check_plan_link :
    {S : Type 0} → Palace S → Kind → Str → Link → S → Result Error (Unit {0})
check_plan_link p k self l s =
    refuse_if (not (is_id l.id)) bad_request
    >> (refuse_if (str_eq k.name plan && str_eq l.id self) bad_request
        >> (refuse_if (not (contains k.plan_relations l.relation)) bad_request
            >> (refuse_if (not (is_nil l.sections) && not k.plan_link_sections) bad_request
                >> (resolve p plan l.id s >>= λ target. check_plan_sections target l.sections))))

-- `checkStoryLink`
unfoldable pub check_story_link :
    {S : Type 0} → Palace S → Kind → Str → Link → S → Result Error (Unit {0})
check_story_link p k self l s =
    refuse_if (not (is_id l.id)) bad_request
    >> (refuse_if (str_eq k.name story && str_eq l.id self) bad_request
        >> (refuse_if (not (contains k.story_relations l.relation)) bad_request
            >> (refuse_if (not (is_nil l.sections)) bad_request
                >> (if str_eq k.name story && k.link_targets_must_exist
                    then (doc_exists p k.name l.id s >>= λ there.
                        refuse_if (not there) Error.not_found)
                    else ok tt))))

-- `strings.Split(s, ",")`
unfoldable pub split_commas : Str → List Str
unfolding push_byte
split_commas [] = [] ∷ []
split_commas (c ∷ s) =
    let rest = split_commas s in if c == b',' then [] ∷ rest else push_byte c rest

-- The inner loop of `cleanSections`.
unfoldable pub clean_parts : List Str → List Str → List Str
clean_parts out [] = out
clean_parts out (part ∷ parts) =
    let t = trim_space part in
    clean_parts (if not (is_empty t) && not (contains out t) then out ++ t ∷ [] else out) parts

unfoldable pub clean_from : List Str → List Str → List Str
unfolding clean_parts split_commas
clean_from out [] = out
clean_from out (s ∷ rest) = clean_from (clean_parts out (split_commas s)) rest

-- `cleanSections`
abbrev pub clean_sections : List Str → List Str
clean_sections sections = clean_from [] sections

-- `equalStrings`
unfoldable pub equal_strings : List Str → List Str → Bool
equal_strings [] [] = true
equal_strings [] (t ∷ ts) = false
equal_strings (s ∷ ss) [] = false
equal_strings (s ∷ ss) (t ∷ ts) = str_eq s t && equal_strings ss ts

-- `Link.Same`
unfoldable pub same : Link → Link → Bool
same l o = str_eq l.id o.id && str_eq l.relation o.relation

-- The first link that is the same.
unfoldable pub find_same : Link → List Link → Option Link
unfolding same
find_same l [] = none
find_same l (x ∷ links) = if same x l then some x else find_same l links

-- The links with the sections of the first that is the same replaced.
unfoldable pub replace_sections : Link → List Link → List Link
unfolding same
replace_sections l [] = []
replace_sections l (x ∷ links) =
    if same x l then record x { sections = l.sections } ∷ links else x ∷ replace_sections l links

-- The document with these links.
abbrev pub with_plan_links : List Link → Document → Document
with_plan_links links d = record d { front_matter = set_plan_links links d.front_matter }

abbrev pub with_story_links : List Link → Document → Document
with_story_links links d = record d { front_matter = set_story_links links d.front_matter }

module _ {S : Type 0} (p : Palace S) (k : Kind) where
  unfoldable pub add_plan_link :
      Str → Str → Str → List Str → World S → World S × Result Error Document
  add_plan_link identifier target relation sections w =
      behind w (resolve p k.name identifier w.store) λ d.
        let l : Link = record {
          id = normalize_id target;
          relation = relation;
          sections = clean_sections sections;
        } in
        let links = plan_links d.front_matter in
        behind w (check_plan_link p k (id_of d) l w.store) λ _. elim (find_same l links) [
          | none ↦ save p k updated (bytes "addPlanLink") (with_plan_links (links ++ l ∷ []) d) w
          | some x ↦
              if is_nil l.sections || equal_strings x.sections l.sections
              then (w, ok d)
              else save p k updated (bytes "addPlanLink")
                  (with_plan_links (replace_sections l links) d) w
        ]

  unfoldable pub set_plan_sections :
      Str → Str → List Str → World S → World S × Result Error Document
  set_plan_sections identifier target sections w =
      if not k.plan_link_sections
      then (w, err bad_request)
      else behind w (resolve p k.name identifier w.store) λ d.
        let id = normalize_id target in
        let cleaned = clean_sections sections in
        let links = plan_links d.front_matter in
        if not (any (λ (x : Link). str_eq x.id id) links)
        then (w, err Error.not_found)
        else behind w
            (if is_nil cleaned
              then ok tt
              else (resolve p plan id w.store >>= λ t. check_plan_sections t cleaned))
            λ _.
              save p k updated (bytes "setPlanSections")
                (with_plan_links
                  (map (λ (x : Link). if str_eq x.id id then record x { sections = cleaned } else x)
                    links)
                  d)
                w

  unfoldable pub remove_plan_link : Str → Str → Str → World S → World S × Result Error Document
  remove_plan_link identifier target relation w =
      behind w (resolve p k.name identifier w.store) λ d.
        let (kept, removed) =
          filter_links (normalize_id target) relation (plan_links d.front_matter) in
        if removed == 0
        then (w, err Error.not_found)
        else save p k updated (bytes "removePlanLink") (with_plan_links kept d) w

  unfoldable pub add_story_link : Str → Str → Str → World S → World S × Result Error Document
  add_story_link identifier target relation w = behind w (resolve p k.name identifier w.store) λ d.
      let l : Link = record { id = normalize_id target; relation = relation; sections = [] } in
      behind w (check_story_link p k (id_of d) l w.store) λ _.
        if has_entry (find_same l (story_links d.front_matter))
        then (w, ok d)
        else save p k updated (bytes "addStoryLink")
            (with_story_links (story_links d.front_matter ++ l ∷ []) d) w

  unfoldable pub remove_story_link : Str → Str → Str → World S → World S × Result Error Document
  remove_story_link identifier target relation w =
      behind w (resolve p k.name identifier w.store) λ d.
        let (kept, removed) =
          filter_links (normalize_id target) relation (story_links d.front_matter) in
        if removed == 0
        then (w, err Error.not_found)
        else save p k updated (bytes "removeStoryLink") (with_story_links kept d) w
