-- ===== src/Reader/Navigation/Handlers.antt =====
-- The handlers of apps/web/src/pages/ReaderPage.tsx as the actions of one page, and what they leave alone.
use novel_platform.Common.{
  ℕ, String, Bool, true, false, Option, none, some, ◌≡◌, refl, if◌then◌else◌,
}
use novel_platform.Reader.State.{Arithmetic, Location, Opened, Conflict, Section, Reader}
use novel_platform.Reader.Position.{handle_scroll, scroll_in}
use novel_platform.Reader.Saving.Calm.{Calm, Calm-refl, Calm-after, persist-Calm}
use novel_platform.Reader.Navigation.{
  go_to, go_to_section, switch_edition, leave_reader, mark_from, mark_finished, restart_from,
  restart_reading, timer_fires, save_keepalive, overwrite_from, overwrite,
}

-- What a reader, a timer or the browser does to the page.
pub data Action (F : Type 0) : Type 0 where
  scrolls : F → F → Option String → Action F
  goes : Option ℕ → Action F
  switches : String → Action F
  leaves marks_finished restarts fires hides overwrites : Action F

module _ {F : Type 0} (ops : Arithmetic F) where
  unfoldable pub act : Action F → Reader F → Reader F
  unfolding handle_scroll go_to_section switch_edition leave_reader mark_finished restart_reading
      timer_fires save_keepalive overwrite
  act (scrolls top overflow visible) r = handle_scroll ops top overflow visible r
  act (goes i) r = go_to_section ops i r
  act (switches id) r = switch_edition ops id r
  act leaves r = leave_reader ops r
  act marks_finished r = mark_finished ops r
  act restarts r = restart_reading ops r
  act fires r = timer_fires ops r
  act hides r = save_keepalive ops r
  act overwrites r = overwrite ops r

  scroll_in-Calm :
      (o : Option (Opened F)) (id : Option String) (top overflow : F) (v : Option String)
      (r : Reader F)
      → Calm r (scroll_in ops o id top overflow v r)
  unfolding scroll_in
  scroll_in-Calm none id top overflow v r = Calm-refl r
  scroll_in-Calm (some o) none top overflow v r = Calm-refl r
  scroll_in-Calm (some o) (some id) top overflow v r =
      Calm-after r _ refl refl refl refl refl (Calm-refl _)

  go_to-Calm :
      (o : Option (Opened F)) (i : ℕ) (d : Option Section) (r : Reader F)
      → Calm r (go_to ops o i d r)
  unfolding go_to
  go_to-Calm none i d r = Calm-refl r
  go_to-Calm (some o) i none r = Calm-refl r
  go_to-Calm (some o) i (some d) r =
      Calm-after r (record r { save_timer = false }) refl refl refl refl refl
        (persist-Calm ops _ _ _ _ _)

  restart_from-Calm : (d : Option Section) (r : Reader F) → Calm r (restart_from ops d r)
  unfolding restart_from
  restart_from-Calm none r = Calm-refl r
  restart_from-Calm (some d) r =
      Calm-after r _ refl refl refl refl refl (persist-Calm ops _ _ _ _ _)

  mark_from-Calm : (l : Option (Location F)) (r : Reader F) → Calm r (mark_from ops l r)
  unfolding mark_from
  mark_from-Calm none r = Calm-refl r
  mark_from-Calm (some l) r = Calm-after r _ refl refl refl refl refl (persist-Calm ops _ _ _ _ _)

  if-Calm :
      (b : Bool) (r : Reader F) {r' r'' : Reader F}
      → Calm r r'
      → Calm r r''
      → Calm r (if b then r' else r'')
  if-Calm true r h k = h
  if-Calm false r h k = k

  overwrite_from-Calm :
      (c : Option Conflict) (r : Reader F) → c ≡ none → Calm r (overwrite_from ops c r)
  unfolding overwrite_from
  overwrite_from-Calm none r h = Calm-refl r
  overwrite_from-Calm (some c) r h = cc

  -- Without a conflict on display, no action changes the confirmed progress, the running save or the
  -- conflict, and each queues one save at most, which overrides no version.
  pub act-Calm : (a : Action F) (r : Reader F) → r.conflict ≡ none → Calm r (act a r)
  unfolding act
  act-Calm (scrolls top overflow v) r h = scroll_in-Calm r.opened r.section top overflow v r
  act-Calm (goes none) r h = Calm-refl r
  act-Calm (goes (some i)) r h = go_to-Calm r.opened i _ r
  act-Calm (switches id) r h = if-Calm _ r (Calm-refl r) (
      Calm-after r (record r { save_timer = false }) refl refl refl refl refl
        (persist-Calm ops _ _ _ _ _))
  act-Calm leaves r h =
      Calm-after r (record r { save_timer = false }) refl refl refl refl refl
        (persist-Calm ops _ _ _ _ _)
  act-Calm marks_finished r h = mark_from-Calm r.location_ref r
  act-Calm restarts r h = restart_from-Calm _ r
  act-Calm fires r h =
      if-Calm _ r
        (Calm-after r (record r { save_timer = false }) refl refl refl refl refl
          (persist-Calm ops _ _ _ _ _))
        (Calm-refl r)
  act-Calm hides r h = persist-Calm ops _ _ _ _ r
  act-Calm overwrites r h = overwrite_from-Calm r.conflict r h
