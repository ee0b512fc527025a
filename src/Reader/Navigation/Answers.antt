-- ===== src/Reader/Navigation/Answers.antt =====
-- `goToSection` and `loadReader` of apps/web/src/pages/ReaderPage.tsx with the saves that are queued.
use novel_platform.Common.{ℕ, false, none, some, [], ◌≡◌, arith, get_elem?, length}
use novel_platform.Reader.State.{
  Arithmetic, Location, Progress, Section, Opened, Reader, to_section,
}
use novel_platform.Reader.Saving.{
  Answer, start_save, start_unless, take_task, begin_task, finish_save, finish_running, answered,
  continue_with, persist, queue_save, enqueue,
}
use novel_platform.Reader.Navigation.{go_to_section, go_to}

module _ {F : Type 0} (ops : Arithmetic F) where
  -- On a page with nothing to save under way, going to a section of the publication first saves the
  -- location that the page has, and then shows the section, whatever the server answers.
  go_to_section-section_index :
      (o : Opened F) (p : Progress F) (l : Location F) (i : ℕ) (d : Section) (a : Answer F)
      (r : Reader F)
      → r.opened ≡ some o
      → r.progress_ref ≡ some p
      → r.location_ref ≡ some l
      → r.running ≡ none
      → r.queue ≡ []
      → get_elem? o.publication.sections i ≡ some d
      → let r' = start_save ops (go_to_section ops (some i) r) in
        (r'.running
          ≡ some (record {
            task = record {
              edition_id = r.edition_id;
              file_revision = o.publication.file_revision;
              keepalive = false;
              status = none;
              override_version = none;
              snapshot = l;
              after = to_section i (record {
                section_id = d.id;
                block_id = none;
                section_progress = ops.of_nat 0;
                overall_progress =
                    ops.div (ops.of_nat i) (ops.of_nat (length o.publication.sections));
              });
            };
            progress = p;
            expected_version = p.version;
          }))
        × ((finish_save ops a r').section_index ≡ i)
  unfolding go_to_section go_to persist queue_save enqueue start_save start_unless take_task
      begin_task finish_save finish_running answered continue_with
  go_to_section-section_index o p l i d a r b c e f g h = ground arith
