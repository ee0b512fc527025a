-- ===== src/Reader/Settings/Debounce.antt =====
-- What the changes of settings on apps/web/src/pages/ReaderPage.tsx send, and what their answers show.
use novel_platform.Common.{none, some, List, [], ◌∷◌, ◌++◌, ◌≡◌, refl}
use novel_platform.Reader.Settings.{
  Settings, change_from, change_settings, send_from, timer_fires, settle_patch, patch_answers,
}

module _ {T : Type 0} where
  -- The changes in their order.
  abbrev pub apply_all : List (T → T) → T → T
  apply_all [] t = t
  apply_all (f ∷ fs) t = apply_all fs (f t)

  abbrev pub change_all : List (T → T) → Settings T → Settings T
  change_all [] s = s
  change_all (f ∷ fs) s = change_all fs (change_settings f s)

  changes-timer :
      (f : T → T) (fs : List (T → T)) (t : T) (s : Settings T)
      → s.settings ≡ some t
      → change_all (f ∷ fs) s
        ≡ record s { settings = some (apply_all (f ∷ fs) t); timer = some (apply_all (f ∷ fs) t) }
  unfolding change_settings change_from
  changes-timer f [] t s e = rw e
  changes-timer f (g ∷ fs) t s e =
      rw e (changes-timer g fs (f t) (record s { settings = some (f t); timer = some (f t) }) refl)

  -- However many changes follow each other before the timer fires, they show at once, and one request is
  -- sent, with all of them.
  change_all-timer_fires :
      (f : T → T) (fs : List (T → T)) (t : T) (s : Settings T)
      → s.settings ≡ some t
      → let s' = timer_fires (change_all (f ∷ fs) s) in
        (s'.settings ≡ some (apply_all (f ∷ fs) t))
        × (s'.patches ≡ s.patches ++ apply_all (f ∷ fs) t ∷ [])
        × (s'.timer ≡ none)
  unfolding timer_fires send_from
  change_all-timer_fires f fs t s e = rw (changes-timer f fs t s e) (refl, refl, refl)

  -- A change that is made while an earlier one awaits its answer is taken back on display when that
  -- answer comes, although its own request is still to be sent.
  pub patch_answers-reverts :
      (f : T → T) (t sent : T) (s : Settings T)
      → s.settings ≡ some t
      → s.patches ≡ sent ∷ []
      → let s' = patch_answers 0 (some sent) (change_settings f s) in
        (s'.settings ≡ some sent) × (s'.timer ≡ some (f t)) × (s'.patches ≡ [])
  unfolding change_settings change_from patch_answers settle_patch
  patch_answers-reverts f t sent s e h = rw (e, h) (refl, refl, refl)
