-- ===== src/Service/ServingProgress.antt =====
-- The progress operations of mind-palace/service/progress.go leave a memory store clean.
use clued.Base.{◌≡◌, true, not, ◌&&◌, [], Str, str_eq, trim_space, contains, lookup}
use clued.Model.{Document}
use clued.Model.Ids.{is_id, normalize_id}
use clued.Store.Memory.{Memory}
use clued.Service.{Kind, Palace, World}
use clued.Config.{normalize_status, default_status}
use clued.Service.{config_of, in_progress, complete}
use clued.Service.Dependencies.{open_dependencies}
use clued.Service.Fields.{criteria_gate, apply_status}
use clued.Service.Relating.{has_entry}
use clued.Service.Progressing.{
  require_section, entry_or, with_entry, all_steps_complete, may_complete, complete_itself,
  set_progress, add_progress_story, remove_progress_story, remove_progress,
}
use clued.Service.Serving.{resolved-Clean, saved-Clean}
use clued.Service.Histories.{kind_of, at_time, Clean, behind-Clean, if-Clean, option-Clean}

module _ {S : Type 0} (p : Palace S) (now : Str) (k : Kind) (same : kind_of k.name ≡ k)
    (w : World Memory) (h : Clean p w) where
  complete_itself-Clean : (d : Document) → Clean p (complete_itself (at_time p now) k d w).0
  unfolding complete_itself
  complete_itself-Clean d =
      behind-Clean p w (open_dependencies (at_time p now) w.store k d true) _ h λ found.
        if-Clean p (may_complete found (criteria_gate (at_time p now) k d)) _ _
          (behind-Clean p w (apply_status (at_time p now) w.store k d complete true) _ h
            λ answer. saved-Clean p now k same w h _ _)
          (saved-Clean p now k same w h _ _)

  pub set_progress-Clean : (i g s : Str) → Clean p (set_progress (at_time p now) k i g s w).0
  unfolding set_progress
  set_progress-Clean i g s = resolved-Clean p now k same w h i _ λ d.
      behind-Clean p w (require_section k d g) _ h λ section.
        option-Clean p (normalize_status p.letters (config_of (at_time p now) k) s) _ _ h λ st.
          let e = entry_or [] (lookup section d.front_matter.progress) in
          let d' = with_entry section (record e { status = st }) d in
          if-Clean p
            (k.auto_complete
              && str_eq st complete
              && str_eq d'.front_matter.status in_progress
              && all_steps_complete d')
            _ _ (complete_itself-Clean d') (saved-Clean p now k same w h _ _)

  pub add_progress_story-Clean :
      (i g s : Str) → Clean p (add_progress_story (at_time p now) k i g s w).0
  unfolding add_progress_story
  add_progress_story-Clean i g s = if-Clean p (not k.progress_stories) _ _ h (
      resolved-Clean p now k same w h i _ λ d.
        behind-Clean p w (require_section k d g) _ h λ section.
          if-Clean p (not (is_id (normalize_id s))) _ _ h (
            if-Clean p
              (contains (entry_or default_status (lookup section d.front_matter.progress)).stories
                (normalize_id s))
              _ _ h (saved-Clean p now k same w h _ _)))

  pub remove_progress_story-Clean :
      (i g s : Str) → Clean p (remove_progress_story (at_time p now) k i g s w).0
  unfolding remove_progress_story
  remove_progress_story-Clean i g s = if-Clean p (not k.progress_stories) _ _ h (
      resolved-Clean p now k same w h i _ λ d.
        option-Clean p (lookup g d.front_matter.progress) _ _ h λ e.
          if-Clean p (not (contains e.stories (normalize_id s))) _ _ h
            (saved-Clean p now k same w h _ _))

  pub remove_progress-Clean : (i g : Str) → Clean p (remove_progress (at_time p now) k i g w).0
  unfolding remove_progress
  remove_progress-Clean i g = resolved-Clean p now k same w h i _ λ d.
      if-Clean p (not (has_entry (lookup (trim_space g) d.front_matter.progress))) _ _ h
        (saved-Clean p now k same w h _ _)
