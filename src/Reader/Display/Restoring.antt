-- ===== src/Reader/Display/Restoring.antt =====
-- Where the scroller of apps/web/src/pages/ReaderPage.tsx stands once a section has arrived.
use Prim.Native.Nat.{suc}
use novel_platform.Common.{ℕ, String, true, none, some, List, ◌≡◌, refl, get_elem?, ap}
use novel_platform.Reader.State.{
  Arithmetic, Progress, Section, Opened, Running, Reader, nothing, synced,
}
use novel_platform.Reader.Saving.{saved, finish_save, finish_running, answered, continue_with}
use novel_platform.Reader.Position.{initial_section_index, restored_location}
use novel_platform.Reader.Navigation.{loaded, load_selected, load_at, section_at}
use novel_platform.Reader.Display.Commit.{Older, later, str_eq_refl, renewed, arrives_restored}
use novel_platform.Reader.Display.{
  opens, target, Fetch, Display, Layout, restore_effect, section_answers, save_answers, scroll_to,
  paint_frame, paint,
}

module _ {F : Type 0} where
  -- The section of an opened edition is on display.
  pub record Shown (d : Display F) (o : Opened F) (s : Section) : Type 0 where
    pub opened : d.reader.opened ≡ some o
    pub descriptor : get_elem? o.publication.sections d.reader.section_index ≡ some s
    pub section : d.reader.section ≡ some s.id
    pub opened_object : Older d.opened_object d.fresh
    pub section_object : Older d.section_object d.fresh

  module _ (ops : Arithmetic F) where
    finish_save-saved :
        (run : Running F) (p : Progress F) (o : Opened F) (r : Reader F)
        → r.running ≡ some run
        → run.task.after ≡ nothing
        → r.opened ≡ some o
        → finish_save ops (saved p) r ≡ record r {
          running = none;
          progress_ref = some p;
          opened = some (record o { progress = p });
          conflict = none;
          conflict_ref = none;
          sync_state = synced;
        }
    unfolding finish_save finish_running answered continue_with
    finish_save-saved run p o r a b c = rw (a, b, c)

    save_answers-fetch :
        (run : Running F) (p : Progress F) (o : Opened F) (s : Section) (d : Display F)
        → Shown d o s
        → d.reader.running ≡ some run
        → run.task.after ≡ nothing
        → save_answers ops (saved p) d ≡ record d {
          reader = record d.reader {
            running = none;
            progress_ref = some p;
            opened = some (record o { progress = p });
            conflict = none;
            conflict_ref = none;
            sync_state = synced;
          };
          opened_object = some d.fresh;
          fresh = suc (suc d.fresh);
          fetch =
              some
                (record { run = suc d.fresh; edition_id = d.reader.edition_id; section_id = s.id });
          is_loading_section = true;
          section_error = none;
        }
    unfolding save_answers
    save_answers-fetch run p o s d h a b =
        rw (finish_save-saved run p o d.reader a b h.opened, a)
          (renewed _ _ s d refl refl h.descriptor (rw h.section refl) h.opened_object)

    -- If a save after which nothing follows is answered while its section is on display and no position is
    -- to be restored, the section is fetched again; once it has arrived and is painted, the scroller
    -- stands at its beginning, though the location that the page keeps is unchanged.
    pub save_answers-scroll_top :
        (run : Running F) (p : Progress F) (o : Opened F) (s : Section) (layout : Layout F)
        (d : Display F)
        → Shown d o s
        → d.reader.running ≡ some run
        → run.task.after ≡ nothing
        → d.reader.restore_ref ≡ none
        → let f : Fetch = record {
          run = suc d.fresh;
          edition_id = d.reader.edition_id;
          section_id = s.id;
        } in
          let d' = save_answers ops (saved p) d in
          let d'' = paint ops layout (section_answers f.run f.section_id d') in
          (d'.fetch ≡ some f)
          × (d''.scroll_top ≡ ops.of_nat 0)
          × (d''.reader.location_ref ≡ d.reader.location_ref)
    unfolding paint paint_frame scroll_to restore_effect
    save_answers-scroll_top run p o s layout d h a b c =
        let e = save_answers-fetch run p o s d h a b in
        rw
          (arrives_restored s.id (save_answers ops (saved p) d)
            (record { run = suc d.fresh; edition_id = d.reader.edition_id; section_id = s.id })
            (rw e) (rw e (later _ _ h.section_object)))
          (rw (e, c) (refl, refl, refl))

    section_at-some :
        (ss : List Section) (i : ℕ) (s : Section)
        → get_elem? ss i ≡ some s
        → section_at ops ss (some i) ≡ some (i, s)
    section_at-some ss i s h = ap (λ x. elim x [ none ↦ none | some y ↦ some (i, y) ]) h

    -- An edition that is opened while nothing is on display has the section of its progress fetched;
    -- once that has arrived and is painted, the scroller stands at the position of the progress.
    pub opens-scroll_top :
        (e : String) (o : Opened F) (i : ℕ) (s : Section) (layout : Layout F) (d : Display F)
        → initial_section_index ops o ≡ some i
        → get_elem? o.publication.sections i ≡ some s
        → d.reader.section ≡ none
        → d.opened_object ≡ none
        → d.section_object ≡ none
        → let f : Fetch = record {
          run = suc d.fresh;
          edition_id = d.reader.edition_id;
          section_id = s.id;
        } in
          let d' = opens ops e o d in
          let d'' = paint ops layout (section_answers f.run f.section_id d') in
          let l = restored_location ops o s in
          (d'.fetch ≡ some f)
          × (d''.scroll_top ≡ target ops layout l.block_id o.progress.section_progress)
          × (d''.reader.restore_ref ≡ none)
    unfolding opens loaded load_selected load_at restored_location paint paint_frame scroll_to
        restore_effect
    opens-scroll_top e o i s layout d a b c g h =
        let x : opens ops e o d ≡ record d {
          reader = load_at ops o i s d.reader;
          opened_object = some d.fresh;
          fresh = suc (suc d.fresh);
          fetch =
              some
                (record { run = suc d.fresh; edition_id = d.reader.edition_id; section_id = s.id });
          is_loading_section = true;
          section_error = none;
        } =
          rw (a, section_at-some o.publication.sections i s b)
            (renewed (load_at ops o i s d.reader) o s d refl refl b (rw (c, h) refl) (rw g tt)) in
        rw
          (arrives_restored s.id (opens ops e o d)
            (record { run = suc d.fresh; edition_id = d.reader.edition_id; section_id = s.id })
            (rw x) (rw (x, h) tt))
          (rw (x, str_eq_refl s.id) (refl, refl, refl))
