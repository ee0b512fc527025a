-- ===== src/Reader/Display/Kept.antt =====
-- What leaves the opened edition of apps/web/src/pages/ReaderPage.tsx alone.
use novel_platform.Common.{
  ℕ, String, Bool, true, false, ◌&&◌, Option, none, some, is_some, List, [], ◌∷◌, ◌≡◌, refl, arith,
  if◌then◌else◌, ◌∙◌,
}
use novel_platform.Reader.State.{
  Arithmetic, ReadingStatus, Location, Section, Opened, Conflict, After, Running, Reader, SaveTask,
  Progress,
}
use novel_platform.Reader.Position.{handle_scroll, scroll_in}
use novel_platform.Reader.Saving.{
  Answer, saved, conflict, other_error, continue_with, queue_save, enqueue, persist, finish_running,
  answered, begin_task, take_task, start_unless,
}
use novel_platform.Reader.Navigation.{
  load_selected, go_to, go_to_section, switch_edition, leave_reader, mark_from, mark_finished,
  restart_from, restart_reading, timer_fires, save_keepalive, overwrite_from, overwrite,
}
use novel_platform.Reader.Navigation.Handlers.{
  Action, scrolls, goes, switches, leaves, marks_finished, restarts, fires, hides, overwrites, act,
}
use novel_platform.Reader.Display.{is_saved}

module _ {F : Type 0} (ops : Arithmetic F) where
  continue_with-opened : (a : After F) (r : Reader F) → (continue_with ops a r).opened ≡ r.opened
  unfolding continue_with
  continue_with-opened a r = ground arith

  persist-opened :
      (k : Bool) (s : Option ReadingStatus) (v : Option ℕ) (l : Option (Location F)) (a : After F)
      (r : Reader F)
      → (persist ops k s v l a r).opened ≡ r.opened
  unfolding persist queue_save enqueue
  persist-opened k s v l a r = ground (arith, continue_with-opened a r)

  if-opened :
      (b : Bool) (x y r : Reader F)
      → x.opened ≡ r.opened
      → y.opened ≡ r.opened
      → (if b then x else y).opened ≡ r.opened
  if-opened true x y r h k = h
  if-opened false x y r h k = k

  scroll_in-opened :
      (o : Option (Opened F)) (id : Option String) (top overflow : F) (v : Option String)
      (r : Reader F)
      → (scroll_in ops o id top overflow v r).opened ≡ r.opened
  unfolding scroll_in
  scroll_in-opened none id top overflow v r = refl
  scroll_in-opened (some o) none top overflow v r = refl
  scroll_in-opened (some o) (some id) top overflow v r = refl

  go_to-opened :
      (o : Option (Opened F)) (i : ℕ) (s : Option Section) (r : Reader F)
      → (go_to ops o i s r).opened ≡ r.opened
  unfolding go_to
  go_to-opened none i s r = refl
  go_to-opened (some o) i none r = refl
  go_to-opened (some o) i (some s) r = persist-opened _ _ _ _ _ (record r { save_timer = false })

  mark_from-opened :
      (l : Option (Location F)) (r : Reader F) → (mark_from ops l r).opened ≡ r.opened
  unfolding mark_from
  mark_from-opened none r = refl
  mark_from-opened (some l) r =
      persist-opened _ _ _ _ _
        (record r { location_ref = some (record l { overall_progress = ops.of_nat 1 }) })

  restart_from-opened :
      (s : Option Section) (r : Reader F) → (restart_from ops s r).opened ≡ r.opened
  unfolding restart_from
  restart_from-opened none r = refl
  restart_from-opened (some s) r =
      let start : Location F = record {
        section_id = s.id;
        block_id = none;
        section_progress = ops.of_nat 0;
        overall_progress = ops.of_nat 0;
      } in
      persist-opened _ _ _ _ _ (record r { location_ref = some start; restore_ref = some start })

  overwrite_from-opened :
      (c : Option Conflict) (r : Reader F) → (overwrite_from ops c r).opened ≡ r.opened
  unfolding overwrite_from
  overwrite_from-opened none r = refl
  overwrite_from-opened (some c) r = persist-opened _ _ _ _ _ r

  pub act-opened : (a : Action F) (r : Reader F) → (act ops a r).opened ≡ r.opened
  unfolding act handle_scroll go_to_section switch_edition leave_reader mark_finished
      restart_reading timer_fires save_keepalive overwrite
  act-opened (scrolls top overflow v) r = scroll_in-opened r.opened r.section top overflow v r
  act-opened (goes none) r = refl
  act-opened (goes (some i)) r = go_to-opened r.opened i _ r
  act-opened (switches id) r =
      if-opened _ r _ r refl (persist-opened _ _ _ _ _ (record r { save_timer = false }))
  act-opened leaves r = persist-opened _ _ _ _ _ (record r { save_timer = false })
  act-opened marks_finished r = mark_from-opened r.location_ref r
  act-opened restarts r = restart_from-opened _ r
  act-opened fires r =
      if-opened r.save_timer _ r r (persist-opened _ _ _ _ _ (record r { save_timer = false })) refl
  act-opened hides r = persist-opened _ _ _ _ _ r
  act-opened overwrites r = overwrite_from-opened r.conflict r

  pub save_keepalive-opened : (r : Reader F) → (save_keepalive ops r).opened ≡ r.opened
  unfolding save_keepalive
  save_keepalive-opened r = persist-opened _ _ _ _ _ r

  begin_task-opened :
      (t : SaveTask F) (p : Option (Progress F)) (r : Reader F)
      → (begin_task ops t p r).opened ≡ r.opened
  unfolding begin_task
  begin_task-opened t none r = continue_with-opened t.after r
  begin_task-opened t (some p) r = refl

  take_task-opened : (q : List (SaveTask F)) (r : Reader F) → (take_task ops q r).opened ≡ r.opened
  unfolding take_task
  take_task-opened [] r = refl
  take_task-opened (t ∷ ts) r = begin_task-opened t r.progress_ref (record r { queue = ts })

  pub start_unless-opened :
      (run : Option (Running F)) (r : Reader F) → (start_unless ops run r).opened ≡ r.opened
  unfolding start_unless
  start_unless-opened none r = take_task-opened r.queue r
  start_unless-opened (some run) r = refl

  answered-opened :
      (run : Running F) (a : Answer F) (r : Reader F)
      → is_saved a ≡ false
      → (answered ops run a r).opened ≡ r.opened
  unfolding answered
  answered-opened run (saved p) r h = absurd (ground arith)
  answered-opened run (conflict v m) r h = refl
  answered-opened run other_error r h = refl

  pub finish_running-opened :
      (run : Option (Running F)) (a : Answer F) (r : Reader F)
      → (is_saved a && is_some run) ≡ false
      → (finish_running ops run a r).opened ≡ r.opened
  unfolding finish_running
  finish_running-opened none a r h = refl
  finish_running-opened (some run) a r h =
      continue_with-opened run.task.after (answered ops run a (record r { running = none }))
      ∙ answered-opened run a (record r { running = none }) (ground arith)

  pub load_selected-opened :
      (e : String) (o : Opened F) (s : Option (ℕ × Section)) (r : Reader F)
      → is_some s ≡ false
      → (load_selected ops e o s r).opened ≡ r.opened
  unfolding load_selected
  load_selected-opened e o none r h = refl
  load_selected-opened e o (some s) r h = absurd (ground arith)
