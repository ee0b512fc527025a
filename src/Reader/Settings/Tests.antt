-- ===== src/Reader/Settings/Tests.antt =====
-- The settings of apps/web/src/pages/ReaderPage.tsx with a size of the font alone.
use novel_platform.Common.{ℕ, ◌+◌, false, none, some, [], ◌∷◌, ◌≡◌, refl}
use novel_platform.Reader.Settings.{Settings, change_settings, patch_answers}
use novel_platform.Reader.Settings.Debounce.{patch_answers-reverts}

abbrev shown : Settings ℕ
shown = record { settings = some 18; timer = none; patches = 18 ∷ []; sync_failed = false }

patch_answers-reverts_example :
    let s' = patch_answers 0 (some 18) (change_settings (λ n. n + 2) shown) in
    (s'.settings ≡ some 18) × (s'.timer ≡ some 20) × (s'.patches ≡ [])
patch_answers-reverts_example = patch_answers-reverts (λ n. n + 2) 18 18 shown refl refl
