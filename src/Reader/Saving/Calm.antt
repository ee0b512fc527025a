-- ===== src/Reader/Saving/Calm.antt =====
-- What the handlers of apps/web/src/pages/ReaderPage.tsx leave alone.
use novel_platform.Common.{
  Bool, Option, none, some, [], ◌∷◌, ◌++◌, ◌≡◌, refl, ◌⊎◌, inl, inr, arith, ◌∙◌,
}
use novel_platform.Reader.State.{
  Arithmetic, ReadingStatus, Location, Opened, After, SaveTask, Reader,
}
use novel_platform.Reader.Saving.{continue_with, queue_save, persist}

module _ {F : Type 0} where
  -- What concerns the version is left alone, but for one save more, which overrides nothing.
  pub record Calm (r r' : Reader F) : Type 0 where
    pub progress_ref : r'.progress_ref ≡ r.progress_ref
    pub running : r'.running ≡ r.running
    pub conflict : r'.conflict ≡ r.conflict
    pub conflict_ref : r'.conflict_ref ≡ r.conflict_ref
    pub queue :
        (r'.queue ≡ r.queue)
        ⊎ ((t : SaveTask F) × (r'.queue ≡ r.queue ++ t ∷ []) × (t.override_version ≡ none))

  pub Calm-refl : (r : Reader F) → Calm r r
  Calm-refl r = record {
    progress_ref = refl;
    running = refl;
    conflict = refl;
    conflict_ref = refl;
    queue = inl refl;
  }

  -- Fields that do not concern the version may change first.
  pub Calm-after :
      (r r' : Reader F) {r'' : Reader F}
      → r'.progress_ref ≡ r.progress_ref
      → r'.running ≡ r.running
      → r'.conflict ≡ r.conflict
      → r'.conflict_ref ≡ r.conflict_ref
      → r'.queue ≡ r.queue
      → Calm r' r''
      → Calm r r''
  Calm-after r r' a b c d e k = record {
    progress_ref = k.progress_ref ∙ a;
    running = k.running ∙ b;
    conflict = k.conflict ∙ c;
    conflict_ref = k.conflict_ref ∙ d;
    queue = rw e at k.queue;
  }

  module _ (ops : Arithmetic F) where
    pub continue_with-Calm : (a : After F) (r : Reader F) → Calm r (continue_with ops a r)
    unfolding continue_with
    continue_with-Calm a r = ground arith

    queue_save-Calm :
        (o : Option (Opened F)) (l : Option (Location F)) (k : Bool) (s : Option ReadingStatus)
        (a : After F) (r : Reader F)
        → Calm r (queue_save ops o l k s none a r)
    unfolding queue_save
    queue_save-Calm none l k s a r = continue_with-Calm a r
    queue_save-Calm (some o) none k s a r = continue_with-Calm a r
    queue_save-Calm (some o) (some x) k s a r = record {
      progress_ref = refl;
      running = refl;
      conflict = refl;
      conflict_ref = refl;
      queue = inr (_, refl, refl);
    }

    pub persist-Calm :
        (k : Bool) (s : Option ReadingStatus) (l : Option (Location F)) (a : After F) (r : Reader F)
        → Calm r (persist ops k s none l a r)
    unfolding persist
    persist-Calm k s l a r = queue_save-Calm r.opened _ k s a r
