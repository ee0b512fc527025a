-- ===== src/Reader/Display/Events.antt =====
-- The events of apps/web/src/pages/ReaderPage.tsx that reach its display, and the ages of the objects.
use Prim.Native.Nat.{suc}
use novel_platform.Common.{
  ℕ, String, Bool, true, false, Option, none, some, ◌≡◌, refl, arith, if◌then◌else◌, ◌==◌,
}
use novel_platform.Reader.State.{Arithmetic, Location, Section, Opened, Reader}
use novel_platform.Reader.Saving.{Answer, start_save}
use novel_platform.Reader.Navigation.{load_reader}
use novel_platform.Reader.Navigation.Handlers.{Action, act}
use novel_platform.Reader.Display.{
  Fetch, Display, Layout, object_of, kept, start_fetch, section_effect, restore_effect, commit,
  becomes, section_arrives, section_answers, section_breaks, section_fails, retry_section,
  starts_opening, changes_edition, opens, starts_save, save_answers, handles, scroll_to,
  paint_frame, paint, restoring, scrolled,
}
use novel_platform.Reader.Display.Commit.{Older}

pub data Event (F : Type 0) : Type 0 where
  edition_awaited : Event F
  edition_changes : String → Event F
  edition_opens : String → Opened F → Event F
  save_starts : Event F
  save_ends : Answer F → Event F
  reader_acts : Action F → Event F
  section_comes : ℕ → String → Event F
  section_lacks : ℕ → String → Event F
  section_retried : Event F
  frame_paints : Layout F → Event F

abbrev pub run_of : Option Fetch → Option ℕ
run_of none = none
run_of (some f) = some f.run

pub older : (x : Option ℕ) (n : ℕ) → Older x n → Older x (suc n)
older none n h = tt
older (some m) n h = omega (arith, h)

kept-Older : (x : Option ℕ) (n : ℕ) (s : Option String) → Older x n → Older (kept x s) (suc n)
kept-Older x n none h = tt
kept-Older x n (some s) h = older x n h

module _ {F : Type 0} where
  -- The objects on display, and the run that is not cancelled, are older than the next.
  pub record Aged (d : Display F) : Type 0 where
    pub opened_object : Older d.opened_object d.fresh
    pub section_object : Older d.section_object d.fresh
    pub run : Older (run_of d.fetch) d.fresh

  fetch-Aged : (s : Option Section) (d : Display F) → Aged d → Aged (start_fetch s d)
  unfolding start_fetch
  fetch-Aged none d h = record {
    opened_object = h.opened_object;
    section_object = h.section_object;
    run = tt;
  }
  fetch-Aged (some s) d h = record {
    opened_object = older _ _ h.opened_object;
    section_object = older _ _ h.section_object;
    run = omega arith;
  }

  restore-Aged : (d : Display F) → Aged d → Aged (restore_effect d)
  unfolding restore_effect
  restore-Aged d h = record {
    opened_object = h.opened_object;
    section_object = h.section_object;
    run = h.run;
  }

  if-Aged : (b : Bool) {x y : Display F} → Aged x → Aged y → Aged (if b then x else y)
  if-Aged true h k = h
  if-Aged false h k = k

  pub commit-Aged : (d d' : Display F) → Aged d' → Aged (commit d d')
  unfolding commit section_effect
  commit-Aged d d' h =
      let fetched = if-Aged _ h (fetch-Aged _ d' h) in if-Aged _ fetched (restore-Aged _ fetched)

  object-Older :
      (b : Bool) (x : Option ℕ) (n : ℕ) (o : Option (Opened F))
      → Older x n
      → Older (object_of b x n o) (suc n)
  object-Older b x n none h = tt
  object-Older true x n (some o) h = omega arith
  object-Older false x n (some o) h = older x n h

  pub becomes-Aged : (b : Bool) (r : Reader F) (d : Display F) → Aged d → Aged (becomes b r d)
  unfolding becomes
  becomes-Aged b r d h = commit-Aged d _ (record {
    opened_object = object-Older b _ _ r.opened h.opened_object;
    section_object = kept-Older _ _ r.section h.section_object;
    run = older _ _ h.run;
  })

  pub arrives-Aged :
      (f : Option Fetch) (run : ℕ) (id : String) (d : Display F)
      → Aged d
      → Aged (section_arrives f run id d)
  unfolding section_arrives
  arrives-Aged none run id d h = h
  arrives-Aged (some f) run id d h =
      if-Aged (f.run == run)
        (commit-Aged d _ (record {
          opened_object = older _ _ h.opened_object;
          section_object = omega arith;
          run = older _ _ h.run;
        }))
        h

  breaks-Aged :
      (f : Option Fetch) (run : ℕ) (message : String) (d : Display F)
      → Aged d
      → Aged (section_breaks f run message d)
  unfolding section_breaks
  breaks-Aged none run message d h = h
  breaks-Aged (some f) run message d h =
      if-Aged (f.run == run)
        (record { opened_object = h.opened_object; section_object = h.section_object; run = h.run })
        h

  module _ (ops : Arithmetic F) where
    unfoldable pub happens : Event F → Display F → Display F
    unfolding starts_opening changes_edition opens starts_save save_answers handles section_answers
        section_fails retry_section paint
    happens edition_awaited d = starts_opening ops d
    happens (edition_changes id) d = changes_edition ops id d
    happens (edition_opens message o) d = opens ops message o d
    happens save_starts d = starts_save ops d
    happens (save_ends a) d = save_answers ops a d
    happens (reader_acts a) d = handles ops a d
    happens (section_comes run id) d = section_answers run id d
    happens (section_lacks run message) d = section_fails run message d
    happens section_retried d = retry_section d
    happens (frame_paints layout) d = paint ops layout d

    pub same_ages :
        (d d' : Display F)
        → d'.opened_object ≡ d.opened_object
        → d'.section_object ≡ d.section_object
        → d'.fetch ≡ d.fetch
        → d'.fresh ≡ d.fresh
        → Aged d
        → Aged d'
    same_ages d d' a b c e h = record {
      opened_object = rw (a, e) h.opened_object;
      section_object = rw (b, e) h.section_object;
      run = rw (c, e) h.run;
    }

    scroll-Aged :
        (layout : Layout F) (l : Option (Location F)) (d : Display F)
        → Aged d
        → Aged (scroll_to ops layout l d)
    unfolding scroll_to
    scroll-Aged layout none d h = same_ages d _ refl refl refl refl h
    scroll-Aged layout (some l) d h = same_ages d _ refl refl refl refl h

    paint-Aged :
        (layout : Layout F) (id : Option String) (d : Display F)
        → Aged d
        → Aged (paint_frame ops layout id d)
    unfolding paint_frame
    paint-Aged layout none d h = h
    paint-Aged layout (some id) d h =
        scroll-Aged layout (restoring ops id d.reader.restore_ref) (record d { frame = none })
          (same_ages d (record d { frame = none }) refl refl refl refl h)

    -- The objects on display and the run that is not cancelled stay older than the next.
    pub happens-Aged : (e : Event F) (d : Display F) → Aged d → Aged (happens e d)
    unfolding happens
    happens-Aged edition_awaited d h = becomes-Aged false (load_reader ops d.reader) d h
    happens-Aged (edition_changes id) d h = becomes-Aged false _ _ (becomes-Aged false _ d h)
    happens-Aged (edition_opens message o) d h = becomes-Aged _ _ d h
    happens-Aged save_starts d h = becomes-Aged false (start_save ops d.reader) d h
    happens-Aged (save_ends a) d h = becomes-Aged _ _ d h
    happens-Aged (reader_acts a) d h =
        becomes-Aged false (act ops a d.reader)
          (record d { scroll_top = scrolled ops a d.scroll_top })
          (same_ages d _ refl refl refl refl h)
    happens-Aged (section_comes run id) d h = arrives-Aged d.fetch run id d h
    happens-Aged (section_lacks run message) d h = breaks-Aged d.fetch run message d h
    happens-Aged section_retried d h =
        commit-Aged d _
          (same_ages d (record d { section_attempt = suc d.section_attempt }) refl refl refl refl h)
    happens-Aged (frame_paints layout) d h = paint-Aged layout d.frame d h
