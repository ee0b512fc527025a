-- ===== src/Reader/Server/Sync/Saves.antt =====
-- The saves of apps/web/src/pages/ReaderPage.tsx, one start or answer at a time, against the versions of
-- the row that they write.
use novel_platform.Common.{
  ℕ, Bool, Option, none, some, List, [], ◌∷◌, ◌++◌, ◌≡◌, refl, ◌⊎◌, inl, inr, arith, ◌∙◌, sym,
  subst, ap,
}
use novel_platform.Reader.State.{Arithmetic, Progress, Publication, SaveTask, Running, Reader}
use novel_platform.Reader.Saving.{
  Answer, saved, conflict, other_error, begin_task, take_task, start_unless, finish_running,
  finish_save, answered,
}
use novel_platform.Reader.Saving.Calm.{Calm, continue_with-Calm}
use novel_platform.Reader.Server.{System, deliver_running, save_progress}

module _ {F : Type 0} where
  abbrev pub Confirmed : Option (Progress F) → ℕ → Type 0
  Confirmed none n = Unit
  Confirmed (some p) n = p.version ≡ n

  abbrev pub Current : Option (Running F) → ℕ → Type 0
  Current none n = Unit
  Current (some run) n = run.expected_version ≡ n

  abbrev pub Plain : List (SaveTask F) → Type 0
  Plain [] = Unit
  Plain (t ∷ ts) = (t.override_version ≡ none) × Plain ts

  -- The page's confirmed version, and that of the save under way, are the server's; no queued save
  -- overrides the version, and no conflict is on display.
  pub record InSync (y : System F) : Type 0 where
    pub confirmed : Confirmed y.page.progress_ref y.row.version
    pub current : Current y.page.running y.row.version
    pub plain : Plain y.page.queue
    pub no_conflict : y.page.conflict ≡ none
    pub no_conflict_ref : y.page.conflict_ref ≡ none

  Plain-append :
      (ts : List (SaveTask F)) (t : SaveTask F)
      → Plain ts
      → t.override_version ≡ none
      → Plain (ts ++ t ∷ [])
  Plain-append [] t p h = (h, tt)
  Plain-append (u ∷ ts) t (q, p) h = (q, Plain-append ts t p h)

  Plain-queue :
      (r r' : Reader F)
      → (r'.queue ≡ r.queue)
        ⊎ ((t : SaveTask F) × (r'.queue ≡ r.queue ++ t ∷ []) × (t.override_version ≡ none))
      → Plain r.queue
      → Plain r'.queue
  Plain-queue r r' (inl e) p = subst Plain (sym e) p
  Plain-queue r r' (inr (t, e, h)) p = subst Plain (sym e) (Plain-append r.queue t p h)

  pub InSync-Calm :
      (r r' : Reader F) (row : Progress F)
      → InSync (record { page = r; row = row })
      → Calm r r'
      → InSync (record { page = r'; row = row })
  InSync-Calm r r' row s c = record {
    confirmed = subst (λ p. Confirmed p row.version) (sym c.progress_ref) s.confirmed;
    current = subst (λ p. Current p row.version) (sym c.running) s.current;
    plain = Plain-queue r r' c.queue s.plain;
    no_conflict = c.conflict ∙ s.no_conflict;
    no_conflict_ref = c.conflict_ref ∙ s.no_conflict_ref;
  }

  module _ (ops : Arithmetic F) where
    begin_task-InSync :
        (t : SaveTask F) (p : Option (Progress F)) (r : Reader F) (row : Progress F)
        → Confirmed p row.version
        → t.override_version ≡ none
        → InSync (record { page = r; row = row })
        → InSync (record { page = begin_task ops t p r; row = row })
    unfolding begin_task
    begin_task-InSync t none r row c h s = InSync-Calm r _ row s (continue_with-Calm ops t.after r)
    begin_task-InSync t (some p) r row c h s = record {
      confirmed = s.confirmed;
      current = rw h c;
      plain = s.plain;
      no_conflict = s.no_conflict;
      no_conflict_ref = s.no_conflict_ref;
    }

    take_task-InSync :
        (q : List (SaveTask F)) (r : Reader F) (row : Progress F)
        → Plain q
        → InSync (record { page = r; row = row })
        → InSync (record { page = take_task ops q r; row = row })
    unfolding take_task
    take_task-InSync [] r row p s = s
    take_task-InSync (t ∷ ts) r row (h, p) s =
        begin_task-InSync t r.progress_ref (record r { queue = ts }) row s.confirmed h
          (record {
            confirmed = s.confirmed;
            current = s.current;
            plain = p;
            no_conflict = s.no_conflict;
            no_conflict_ref = s.no_conflict_ref;
          })

    pub start_unless-InSync :
        (u : Option (Running F)) (r : Reader F) (row : Progress F)
        → InSync (record { page = r; row = row })
        → InSync (record { page = start_unless ops u r; row = row })
    unfolding start_unless
    start_unless-InSync none r row s = take_task-InSync r.queue r row s.plain s
    start_unless-InSync (some u) r row s = s

    -- An answer that leaves no conflict, with the row that it was given for.
    abbrev Agrees : Answer F → Progress F → Progress F → Type 0
    Agrees (saved p) row row' = p ≡ row'
    Agrees (conflict v m) row row' = ⊥
    Agrees other_error row row' = row' ≡ row

    finish_running-InSync :
        (run : Running F) (a : Answer F) (r : Reader F) (row row' : Progress F)
        → Agrees a row row'
        → InSync (record { page = r; row = row })
        → InSync (record { page = finish_running ops (some run) a r; row = row' })
    unfolding finish_running answered
    finish_running-InSync run (saved p) r row row' h s =
        InSync-Calm _ _ row'
          (record {
            confirmed = ap (λ (x : Progress F). x.version) h;
            current = tt;
            plain = s.plain;
            no_conflict = refl;
            no_conflict_ref = refl;
          })
          (continue_with-Calm ops run.task.after _)
    finish_running-InSync run (conflict v m) r row row' h s = absurd h
    finish_running-InSync run other_error r row row' h s =
        InSync-Calm _ _ row'
          (record {
            confirmed =
                subst (λ (x : Progress F). Confirmed r.progress_ref x.version) (sym h) s.confirmed;
            current = tt;
            plain = s.plain;
            no_conflict = s.no_conflict;
            no_conflict_ref = s.no_conflict_ref;
          })
          (continue_with-Calm ops run.task.after _)

    pub break_running-InSync :
        (u : Option (Running F)) (r : Reader F) (row : Progress F)
        → r.running ≡ u
        → InSync (record { page = r; row = row })
        → InSync (record { page = finish_save ops other_error r; row = row })
    unfolding finish_save
    break_running-InSync none r row e s =
        subst (λ u. InSync (record { page = finish_running ops u other_error r; row = row }))
          (sym e) s
    break_running-InSync (some run) r row e s =
        subst (λ u. InSync (record { page = finish_running ops u other_error r; row = row }))
          (sym e) (finish_running-InSync run other_error r row row refl s)

    module _ (nearly_done : F → Bool) (publication : Publication) where
      -- A save that names the row's version is answered without a conflict.
      save_progress-Agrees :
          (run : Running F) (row : Progress F)
          → run.expected_version ≡ row.version
          → Agrees
              (save_progress nearly_done publication run row).1
              row
              (save_progress nearly_done publication run row).0
      unfolding save_progress
      save_progress-Agrees run row h = ground arith

      pub deliver_running-InSync :
          (u : Option (Running F)) (r : Reader F) (row : Progress F)
          → Current u row.version
          → r.running ≡ u
          → InSync (record { page = r; row = row })
          → InSync (deliver_running nearly_done ops publication u (record { page = r; row = row }))
      unfolding deliver_running finish_save
      deliver_running-InSync none r row c e s = s
      deliver_running-InSync (some run) r row c e s =
          subst
            (λ u. InSync (record {
              page = finish_running ops u (save_progress nearly_done publication run row).1 r;
              row = (save_progress nearly_done publication run row).0;
            }))
            (sym e) (finish_running-InSync run _ r row _ (save_progress-Agrees run row c) s)
