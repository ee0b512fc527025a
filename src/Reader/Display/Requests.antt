-- ===== src/Reader/Display/Requests.antt =====
-- The events of apps/web/src/pages/ReaderPage.tsx, and the section that the page awaits.
use Prim.Native.Nat.{suc}
use novel_platform.Common.{
  ℕ, String, Bool, true, false, Option, none, some, List, [], ◌∷◌, ◌≡◌, inl, inr, refl, arith,
  if◌then◌else◌, ◌==◌,
}
use novel_platform.Reader.State.{Arithmetic, Location}
use novel_platform.Reader.Saving.{start_save, finish_save}
use novel_platform.Reader.Navigation.{load_reader, loaded, save_keepalive}
use novel_platform.Reader.Navigation.Handlers.{act}
use novel_platform.Reader.Display.{
  Fetch, Display, Layout, selected, commit, section_arrives, section_answers, section_breaks,
  section_fails, retry_section, starts_opening, changes_edition, opens, starts_save, save_answers,
  handles, scrolled, restoring, scroll_to, paint_frame, paint, becomes,
}
use novel_platform.Reader.Display.Kept.{
  act-opened, save_keepalive-opened, finish_running-opened, start_unless-opened,
  load_selected-opened,
}
use novel_platform.Reader.Display.Events.{
  edition_awaited, edition_changes, edition_opens, save_starts, save_ends, reader_acts,
  section_comes, section_lacks, section_retried, frame_paints, older, commit-Aged, Event, happens,
  Aged, same_ages, happens-Aged,
}
use novel_platform.Reader.Display.Current.{
  Asks, Current, commit-Right, commit-Known, becomes-Current,
}

module _ {F : Type 0} where
  same_Current :
      (d d' : Display F)
      → d'.reader.opened ≡ d.reader.opened
      → d'.reader.edition_id ≡ d.reader.edition_id
      → d'.reader.section_index ≡ d.reader.section_index
      → d'.fetch ≡ d.fetch
      → d'.opened_object ≡ d.opened_object
      → Aged d'
      → Current d
      → Current d'
  same_Current d d' a n b e f g c = record {
    right = rw (a, n, b, e) c.right;
    known = rw (a, f) c.known;
    aged = g;
  }

  if-Current : (b : Bool) {x y : Display F} → Current x → Current y → Current (if b then x else y)
  if-Current true h k = h
  if-Current false h k = k

  commit-Current :
      (d d' : Display F)
      → d'.reader.opened ≡ d.reader.opened
      → d'.reader.edition_id ≡ d.reader.edition_id
      → d'.reader.section_index ≡ d.reader.section_index
      → d'.fetch ≡ d.fetch
      → d'.opened_object ≡ d.opened_object
      → Aged d'
      → Current d
      → Current (commit d d')
  commit-Current d d' a n b e f g c =
      let c' = same_Current d d' a n b e f g c in
      record {
        right = commit-Right d d' (λ h. c'.right);
        known = commit-Known d d' c'.known;
        aged = commit-Aged d d' g;
      }

  arrives-Current :
      (f : Option Fetch) (run : ℕ) (id : String) (d : Display F)
      → Current d
      → Current (section_arrives f run id d)
  unfolding section_arrives
  arrives-Current none run id d c = c
  arrives-Current (some f) run id d c =
      let d' : Display F = record d {
        reader = record d.reader { section = some id };
        section_object = some d.fresh;
        fresh = suc d.fresh;
        is_loading_section = false;
      } in
      if-Current (f.run == run)
        (commit-Current d d' refl refl refl refl refl
          (record {
            opened_object = older _ _ c.aged.opened_object;
            section_object = omega arith;
            run = older _ _ c.aged.run;
          })
          c)
        c

  breaks-Current :
      (f : Option Fetch) (run : ℕ) (m : String) (d : Display F)
      → Current d
      → Current (section_breaks f run m d)
  unfolding section_breaks
  breaks-Current none run m d c = c
  breaks-Current (some f) run m d c =
      let d' : Display F = record d { section_error = some m; is_loading_section = false } in
      if-Current (f.run == run)
        (same_Current d d' refl refl refl refl refl
          (record {
            opened_object = c.aged.opened_object;
            section_object = c.aged.section_object;
            run = c.aged.run;
          })
          c)
        c

module _ {F : Type 0} (ops : Arithmetic F) where
  scroll-Current :
      (layout : Layout F) (l : Option (Location F)) (d : Display F)
      → Aged (scroll_to ops layout l d)
      → Current d
      → Current (scroll_to ops layout l d)
  unfolding scroll_to
  scroll-Current layout none d g c = same_Current d _ refl refl refl refl refl g c
  scroll-Current layout (some l) d g c = same_Current d _ refl refl refl refl refl g c

  paint-Current :
      (layout : Layout F) (id : Option String) (d : Display F)
      → Aged (paint_frame ops layout id d)
      → Current d
      → Current (paint_frame ops layout id d)
  unfolding paint_frame
  paint-Current layout none d g c = c
  paint-Current layout (some id) d g c =
      scroll-Current layout (restoring ops id d.reader.restore_ref) (record d { frame = none }) g
        (same_Current d (record d { frame = none }) refl refl refl refl refl
          (same_ages ops d (record d { frame = none }) refl refl refl refl c.aged) c)

  changes-Current : (id : String) (d : Display F) → Current d → Current (changes_edition ops id d)
  unfolding changes_edition starts_opening load_reader
  changes-Current id d c =
      let r = save_keepalive ops (record d.reader { save_timer = false }) in
      let d' : Display F = becomes false (record r { edition_id = id }) d in
      becomes-Current false (load_reader ops d'.reader) d' (λ e. inl refl)
        (becomes-Current false (record r { edition_id = id }) d
          (λ e. inr (save_keepalive-opened ops (record d.reader { save_timer = false }))) c)

  happens-Current : (e : Event F) (d : Display F) → Current d → Current (happens ops e d)
  unfolding happens starts_opening load_reader opens loaded starts_save start_save save_answers
      finish_save handles section_answers section_fails retry_section paint
  happens-Current edition_awaited d c =
      becomes-Current false (load_reader ops d.reader) d (λ e. inl refl) c
  happens-Current (edition_changes id) d c = changes-Current id d c
  happens-Current (edition_opens m o) d c =
      becomes-Current _ (loaded ops m o d.reader) d
        (λ e. inr (load_selected-opened ops m o _ d.reader e)) c
  happens-Current save_starts d c =
      becomes-Current false (start_save ops d.reader) d
        (λ e. inr (start_unless-opened ops d.reader.running d.reader)) c
  happens-Current (save_ends a) d c =
      becomes-Current _ (finish_save ops a d.reader) d
        (λ e. inr (finish_running-opened ops d.reader.running a d.reader e)) c
  happens-Current (reader_acts a) d c =
      let moved : Display F = record d { scroll_top = scrolled ops a d.scroll_top } in
      becomes-Current false (act ops a d.reader) moved (λ e. inr (act-opened ops a d.reader))
        (same_Current d moved refl refl refl refl refl
          (same_ages ops d moved refl refl refl refl c.aged) c)
  happens-Current (section_comes run id) d c = arrives-Current d.fetch run id d c
  happens-Current (section_lacks run m) d c = breaks-Current d.fetch run m d c
  happens-Current section_retried d c =
      let d' : Display F = record d { section_attempt = suc d.section_attempt } in
      commit-Current d d' refl refl refl refl refl (same_ages ops d d' refl refl refl refl c.aged) c
  happens-Current (frame_paints layout) d c =
      paint-Current layout d.frame d (happens-Aged ops (frame_paints layout) d c.aged) c

  unfoldable pub happen_all : List (Event F) → Display F → Display F
  happen_all [] d = d
  happen_all (e ∷ es) d = happen_all es (happens ops e d)

  all-Current : (es : List (Event F)) (d : Display F) → Current d → Current (happen_all es d)
  unfolding happen_all
  all-Current [] d c = c
  all-Current (e ∷ es) d c = all-Current es (happens ops e d) (happens-Current e d c)

  -- From a page with nothing opened: whatever the reader does, whenever the address names another edition
  -- or the edition is opened again, whichever saves start, and in whatever order answers come, the section
  -- that the page awaits is the one that it is at, asked of the edition in the address, for the request of
  -- any other is cancelled.
  pub happen_all-Asks :
      (es : List (Event F)) (d : Display F)
      → d.reader.opened ≡ none
      → d.opened_object ≡ none
      → d.section_object ≡ none
      → d.fetch ≡ none
      → let d' = happen_all es d in
        Asks d'.reader.edition_id d'.fetch (selected d'.reader.opened d'.reader.section_index)
  happen_all-Asks es d a b c e =
      (all-Current es d (record {
        right = rw e tt;
        known = λ h. a;
        aged = record { opened_object = rw b tt; section_object = rw c tt; run = rw e tt };
      })).right
