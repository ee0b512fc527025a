-- ===== src/Reader/Server/Sync.antt =====
-- The queue of saves of apps/web/src/pages/ReaderPage.tsx against the versions of the row that it writes,
-- while no other page writes it.
pub mod Saves
use novel_platform.Common.{
  ℕ, String, Bool, Option, none, some, List, [], ◌∷◌, ◌++◌, ◌≡◌, refl, ◌⊎◌, inl, inr, arith, ◌∙◌,
  sym, subst, ap,
}
use novel_platform.Reader.State.{
  Arithmetic, Section, Progress, Publication, Opened, SaveTask, Running, Reader,
}
use novel_platform.Reader.Saving.{
  Answer, saved, conflict, other_error, begin_task, take_task, start_unless, start_save,
  finish_running, finish_save, answered,
}
use novel_platform.Reader.Saving.Calm.{Calm, Calm-refl, Calm-after, continue_with-Calm}
use novel_platform.Reader.Navigation.{load_reader, loaded, load_failed, load_selected, load_at}
use novel_platform.Reader.Navigation.Handlers.{Action, act, act-Calm}
use novel_platform.Reader.Server.{System, deliver, deliver_running, save_progress}
use novel_platform.Reader.Server.Sync.Saves.{
  InSync, Confirmed, Current, Plain, InSync-Calm, break_running-InSync, start_unless-InSync,
  deliver_running-InSync,
}

module _ {F : Type 0} where
  module _ (ops : Arithmetic F) where
    module _ (nearly_done : F → Bool) (publication : Publication) where
      -- What happens to the page and its row while no other page writes the row, the edition stays the
      -- same, and no answer to a save that the server has taken is lost: an action, the queue's next save,
      -- an answer, a save that does not reach the server, a reload, or its end. A row that is opened is
      -- the one that the server has by then.
      pub data Step : System F → System F → Type 0 where
        acts : (a : Action F) (y : System F) → Step y (record y { page = act ops a y.page })
        starts : (y : System F) → Step y (record y { page = start_save ops y.page })
        delivers : (y : System F) → Step y (deliver nearly_done ops publication y)
        breaks : (y : System F) → Step y (record y { page = finish_save ops other_error y.page })
        reloads : (y : System F) → Step y (record y { page = load_reader ops y.page })
        opens :
            (type_error : String) (o : Opened F) (y : System F)
            → o.progress.version ≡ y.row.version
            → Step y (record y { page = loaded ops type_error o y.page })
        fails :
            (message : String) (y : System F)
            → Step y (record y { page = load_failed ops message y.page })

      pub data Reach (start : System F) : System F → Type 0 where
        here : Reach start start
        next : {y y' : System F} → Reach start y → Step y y' → Reach start y'

      load_selected-InSync :
          (e : String) (o : Opened F) (s : Option (ℕ × Section)) (r : Reader F) (row : Progress F)
          → o.progress.version ≡ row.version
          → InSync (record { page = r; row = row })
          → InSync (record { page = load_selected ops e o s r; row = row })
      unfolding load_selected load_at
      load_selected-InSync e o none r row h s =
          InSync-Calm r _ row s (Calm-after r _ refl refl refl refl refl (Calm-refl _))
      load_selected-InSync e o (some (i, d)) r row h s = record {
        confirmed = h;
        current = s.current;
        plain = s.plain;
        no_conflict = s.no_conflict;
        no_conflict_ref = s.no_conflict_ref;
      }

      Step-InSync : (y y' : System F) → Step y y' → InSync y → InSync y'
      unfolding start_save deliver load_reader loaded load_failed
      Step-InSync y _ (acts a _) s =
          InSync-Calm y.page _ y.row s (act-Calm ops a y.page s.no_conflict)
      Step-InSync y _ (starts _) s = start_unless-InSync ops y.page.running y.page y.row s
      Step-InSync y _ (delivers _) s =
          deliver_running-InSync ops nearly_done publication y.page.running y.page y.row s.current
            refl s
      Step-InSync y _ (breaks _) s = break_running-InSync ops y.page.running y.page y.row refl s
      Step-InSync y _ (reloads _) s = record {
        confirmed = tt;
        current = s.current;
        plain = s.plain;
        no_conflict = refl;
        no_conflict_ref = refl;
      }
      Step-InSync y _ (opens e o _ h) s = load_selected-InSync e o _ y.page y.row h s
      Step-InSync y _ (fails m _) s =
          InSync-Calm y.page _ y.row s (Calm-after y.page _ refl refl refl refl refl (Calm-refl _))

      pub Reach-InSync : (start y : System F) → InSync start → Reach start y → InSync y
      Reach-InSync start _ s here = s
      Reach-InSync start _ s (next {y} {y'} h k) = Step-InSync y y' k (Reach-InSync start y s h)

      -- From a page with no conflict, no save queued or under way and no progress opened yet, whatever the
      -- page does, in whatever order its saves start, are answered or fail before they reach the server,
      -- and whenever it loads the edition again: it never shows a conflict, as long as the edition stays
      -- the same, no other page writes its row, no answer to a save that the server has taken is lost, and
      -- each load shows the row as it is by then.
      pub never_conflicts :
          (r : Reader F) (row : Progress F) (y : System F)
          → r.progress_ref ≡ none
          → r.running ≡ none
          → r.queue ≡ []
          → r.conflict ≡ none
          → r.conflict_ref ≡ none
          → Reach (record { page = r; row = row }) y
          → (y.page.conflict ≡ none) × (y.page.conflict_ref ≡ none)
      never_conflicts r row y a b c d e h = (k.no_conflict, k.no_conflict_ref)
        where
          k : InSync y
          k =
              Reach-InSync _ y
                (record {
                  confirmed = subst (λ p. Confirmed p row.version) (sym a) tt;
                  current = subst (λ p. Current p row.version) (sym b) tt;
                  plain = subst Plain (sym c) tt;
                  no_conflict = d;
                  no_conflict_ref = e;
                })
                h
