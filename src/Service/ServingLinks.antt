-- ===== src/Service/ServingLinks.antt =====
-- The link operations of mind-palace/service/links.go leave a memory store clean.
use clued.Base.{
  ◌≡◌, not, ◌&&◌, ◌||◌, List, [], any, Str, is_empty, str_eq, trim_space, contains, lookup, ◌==◌,
}
use clued.Model.{Link, id_of}
use clued.Model.Ids.{normalize_id}
use clued.Model.Linking.{plan_links, story_links, filter_links}
use clued.Store.Memory.{Memory}
use clued.Service.{Kind, Palace, World}
use clued.Service.Relating.{
  is_nil, has_entry, check_plan_link, check_story_link, clean_sections, equal_strings, find_same,
  add_plan_link, set_plan_sections, remove_plan_link, add_story_link, remove_story_link,
}
use clued.Service.Attaching.{
  links_of, repo_of, has_url, add_spec, remove_spec, set_web_link, remove_web_link, set_repo,
  clear_repo, add_file, remove_file,
}
use clued.Service.Serving.{resolved-Clean, saved-Clean}
use clued.Service.Histories.{kind_of, at_time, Clean, behind-Clean, if-Clean, option-Clean}

module _ {S : Type 0} (p : Palace S) (now : Str) (k : Kind) (same : kind_of k.name ≡ k)
    (w : World Memory) (h : Clean p w) where
  pub add_plan_link-Clean :
      (i t r : Str) (ss : List Str) → Clean p (add_plan_link (at_time p now) k i t r ss w).0
  unfolding add_plan_link
  add_plan_link-Clean i t r ss = resolved-Clean p now k same w h i _ λ d.
      let l : Link = record { id = normalize_id t; relation = r; sections = clean_sections ss } in
      behind-Clean p w (check_plan_link (at_time p now) k (id_of d) l w.store) _ h λ u.
        option-Clean p (find_same l (plan_links d.front_matter)) _ _
          (saved-Clean p now k same w h _ _)
          λ x.
            if-Clean p (is_nil l.sections || equal_strings x.sections l.sections) _ _ h
              (saved-Clean p now k same w h _ _)

  pub set_plan_sections-Clean :
      (i t : Str) (ss : List Str) → Clean p (set_plan_sections (at_time p now) k i t ss w).0
  unfolding set_plan_sections
  set_plan_sections-Clean i t ss = if-Clean p (not k.plan_link_sections) _ _ h (
      resolved-Clean p now k same w h i _ λ d.
        if-Clean p
          (not (any (λ (x : Link). str_eq x.id (normalize_id t)) (plan_links d.front_matter))) _ _ h
          (behind-Clean p w _ _ h λ u. saved-Clean p now k same w h _ _))

  pub remove_plan_link-Clean :
      (i t r : Str) → Clean p (remove_plan_link (at_time p now) k i t r w).0
  unfolding remove_plan_link
  remove_plan_link-Clean i t r = resolved-Clean p now k same w h i _ λ d.
      if-Clean p ((filter_links (normalize_id t) r (plan_links d.front_matter)).1 == 0) _ _ h
        (saved-Clean p now k same w h _ _)

  pub add_story_link-Clean : (i t r : Str) → Clean p (add_story_link (at_time p now) k i t r w).0
  unfolding add_story_link
  add_story_link-Clean i t r = resolved-Clean p now k same w h i _ λ d.
      let l : Link = record { id = normalize_id t; relation = r; sections = [] } in
      behind-Clean p w (check_story_link (at_time p now) k (id_of d) l w.store) _ h λ u.
        if-Clean p (has_entry (find_same l (story_links d.front_matter))) _ _ h
          (saved-Clean p now k same w h _ _)

  pub remove_story_link-Clean :
      (i t r : Str) → Clean p (remove_story_link (at_time p now) k i t r w).0
  unfolding remove_story_link
  remove_story_link-Clean i t r = resolved-Clean p now k same w h i _ λ d.
      if-Clean p ((filter_links (normalize_id t) r (story_links d.front_matter)).1 == 0) _ _ h
        (saved-Clean p now k same w h _ _)

  pub add_spec-Clean : (i s : Str) → Clean p (add_spec (at_time p now) k i s w).0
  unfolding add_spec
  add_spec-Clean i s = resolved-Clean p now k same w h i _ λ d.
      if-Clean p (is_empty (trim_space s)) _ _ h (
        if-Clean p (contains (links_of d).specs (trim_space s)) _ _ h
          (saved-Clean p now k same w h _ _))

  pub remove_spec-Clean : (i s : Str) → Clean p (remove_spec (at_time p now) k i s w).0
  unfolding remove_spec
  remove_spec-Clean i s =
      resolved-Clean p now k same w h i _ λ d.
        if-Clean p (not (contains (links_of d).specs s)) _ _ h (saved-Clean p now k same w h _ _)

  pub set_web_link-Clean : (i l u : Str) → Clean p (set_web_link (at_time p now) k i l u w).0
  unfolding set_web_link
  set_web_link-Clean i l u = resolved-Clean p now k same w h i _ λ d.
      if-Clean p (is_empty (trim_space l) || is_empty (trim_space u)) _ _ h
        (saved-Clean p now k same w h _ _)

  pub remove_web_link-Clean : (i l : Str) → Clean p (remove_web_link (at_time p now) k i l w).0
  unfolding remove_web_link
  remove_web_link-Clean i l = resolved-Clean p now k same w h i _ λ d.
      if-Clean p (not (has_url (lookup l (links_of d).web))) _ _ h
        (saved-Clean p now k same w h _ _)

  pub set_repo-Clean : (i a b c : Str) → Clean p (set_repo (at_time p now) k i a b c w).0
  unfolding set_repo
  set_repo-Clean i a b c = resolved-Clean p now k same w h i _ λ d.
      if-Clean p (is_empty (trim_space a) && is_empty (trim_space b) && is_empty (trim_space c)) _ _
        h
        (if-Clean p (not (is_empty (trim_space c)) && not k.repo_files) _ _ h
          (saved-Clean p now k same w h _ _))

  pub clear_repo-Clean : (i : Str) → Clean p (clear_repo (at_time p now) k i w).0
  unfolding clear_repo
  clear_repo-Clean i =
      resolved-Clean p now k same w h i _
        λ d. option-Clean p (links_of d).repo _ _ h λ r. saved-Clean p now k same w h _ _

  pub add_file-Clean : (i f : Str) → Clean p (add_file (at_time p now) k i f w).0
  unfolding add_file
  add_file-Clean i f = if-Clean p (not k.repo_files) _ _ h (
      resolved-Clean p now k same w h i _ λ d. if-Clean p (is_empty (trim_space f)) _ _ h (
        if-Clean p (contains (repo_of d).files (trim_space f)) _ _ h
          (saved-Clean p now k same w h _ _)))

  pub remove_file-Clean : (i f : Str) → Clean p (remove_file (at_time p now) k i f w).0
  unfolding remove_file
  remove_file-Clean i f = if-Clean p (not k.repo_files) _ _ h (
      resolved-Clean p now k same w h i _ λ d.
        if-Clean p (not (contains (repo_of d).files f)) _ _ h (saved-Clean p now k same w h _ _))
