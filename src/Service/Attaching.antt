-- ===== src/Service/Attaching.antt =====
-- The specs, web links and repository of a document in mind-palace/service/links.go.
use clued.Base.{
  Bool, true, false, not, ◌&&◌, ◌||◌, Option, none, some, [], ◌∷◌, ◌++◌, Str, bytes, is_empty,
  str_eq, trim_space, contains, keep, lookup, insert, delete, if◌then◌else◌, Result, ok, err,
}
use clued.Model.{Repo, Links, Document}
use clued.Model.Linking.{no_links, tidied}
use clued.Service.{Kind, Error, bad_request, Palace, updated, World, behind}
use clued.Service.Resolving.{resolve}
use clued.Service.Saving.{save}

-- `ensureLinks`
abbrev pub links_of : Document → Links
links_of d = elim d.front_matter.links [ none ↦ no_links | some l ↦ l ]

abbrev pub no_repo : Repo
no_repo = record { remote = []; local = []; pull_request = []; files = [] }

abbrev pub repo_of : Document → Repo
repo_of d = elim (links_of d).repo [ none ↦ no_repo | some r ↦ r ]

-- The document with these links.
abbrev pub with_links : Links → Document → Document
with_links l d = record d { front_matter = record (d.front_matter) { links = some l } }

-- The same, after `tidyLinks`.
abbrev pub with_tidied : Links → Document → Document
with_tidied l d = record d { front_matter = record (d.front_matter) { links = tidied l } }

-- `Repo.IsEmpty`, on a repo that is there; a repo without anything is dropped.
unfoldable pub some_repo : Repo → Option Repo
some_repo r =
    if is_empty r.remote
      && is_empty r.local
      && is_empty r.pull_request
      && elim r.files as (λ x. Bool) [ [] ↦ true | f ∷ fs ↦ false ]
    then none
    else some r

-- Whether the map has something else than an empty text there.
abbrev pub has_url : Option Str → Bool
has_url none = false
has_url (some url) = not (is_empty url)

abbrev pub or_else : Str → Str → Str
or_else given kept = if is_empty given then kept else given

module _ {S : Type 0} (p : Palace S) (k : Kind) where
  unfoldable pub add_spec : Str → Str → World S → World S × Result Error Document
  add_spec identifier given w = behind w (resolve p k.name identifier w.store) λ d.
      let spec = trim_space given in
      let l = links_of d in
      if is_empty spec
      then (w, err bad_request)
      else if contains l.specs spec
      then (w, ok d)
      else save p k updated (bytes "addSpec")
          (with_links (record l { specs = l.specs ++ spec ∷ [] }) d) w

  unfoldable pub remove_spec : Str → Str → World S → World S × Result Error Document
  remove_spec identifier spec w = behind w (resolve p k.name identifier w.store) λ d.
      let l = links_of d in
      if not (contains l.specs spec)
      then (w, err Error.not_found)
      else save p k updated (bytes "removeSpec")
          (with_tidied (record l { specs = keep (λ x. not (str_eq x spec)) l.specs }) d) w

  unfoldable pub set_web_link : Str → Str → Str → World S → World S × Result Error Document
  set_web_link identifier label url w = behind w (resolve p k.name identifier w.store) λ d.
      let l = links_of d in
      if is_empty (trim_space label) || is_empty (trim_space url)
      then (w, err bad_request)
      else save p k updated (bytes "setWebLink")
          (with_links (record l { web = insert (trim_space label) (trim_space url) l.web }) d) w

  unfoldable pub remove_web_link : Str → Str → World S → World S × Result Error Document
  remove_web_link identifier label w = behind w (resolve p k.name identifier w.store) λ d.
      let l = links_of d in
      if not (has_url (lookup label l.web))
      then (w, err Error.not_found)
      else save p k updated (bytes "removeWebLink")
          (with_tidied (record l { web = delete label l.web }) d) w

  unfoldable pub set_repo : Str → Str → Str → Str → World S → World S × Result Error Document
  set_repo identifier remote local pull_request w =
      behind w (resolve p k.name identifier w.store) λ d.
        let a = trim_space remote in
        let b = trim_space local in
        let c = trim_space pull_request in
        if is_empty a && is_empty b && is_empty c
        then (w, err bad_request)
        else if not (is_empty c) && not k.repo_files
        then (w, err bad_request)
        else let r = repo_of d in
          save p k updated (bytes "setRepo")
            (with_links
              (record (links_of d) {
                repo = some (record r {
                  remote = or_else a r.remote;
                  local = or_else b r.local;
                  pull_request = or_else c r.pull_request;
                });
              })
              d)
            w

  unfoldable pub clear_repo : Str → World S → World S × Result Error Document
  clear_repo identifier w = behind w (resolve p k.name identifier w.store) λ d.
      elim (links_of d).repo [
        | none ↦ (w, ok d)
        | some r ↦
            save p k updated (bytes "clearRepo")
              (with_tidied (record (links_of d) { repo = none }) d) w
      ]

  unfoldable pub add_file : Str → Str → World S → World S × Result Error Document
  add_file identifier given w =
      if not k.repo_files
      then (w, err bad_request)
      else behind w (resolve p k.name identifier w.store) λ d.
        let path = trim_space given in
        let r = repo_of d in
        if is_empty path
        then (w, err bad_request)
        else if contains r.files path
        then (w, ok d)
        else save p k updated (bytes "addFile")
            (with_links
              (record (links_of d) { repo = some (record r { files = r.files ++ path ∷ [] }) }) d)
            w

  unfoldable pub remove_file : Str → Str → World S → World S × Result Error Document
  remove_file identifier path w =
      if not k.repo_files
      then (w, err bad_request)
      else behind w (resolve p k.name identifier w.store) λ d.
        let r = repo_of d in
        if not (contains r.files path)
        then (w, err Error.not_found)
        else save p k updated (bytes "removeFile")
            (with_tidied
              (record (links_of d) {
                repo = some_repo (record r { files = keep (λ x. not (str_eq x path)) r.files });
              })
              d)
            w
