-- ===== src/Shared/Tests.antt =====
-- `ProtectedImage` of apps/web/src/shared/ProtectedImage.tsx at a concrete sequence of events.
use novel_platform.Common.{true, false, some, List, [], ◌∷◌, ◌≡◌}
use novel_platform.Shared.ProtectedImage.{
  Event, path_changes, file_comes, file_fails, unmounts, happen_all, mount,
}
use novel_platform.Shared.ProtectedImage.Urls.{to_list, happen_all-live}

-- The first file comes, the path changes twice, an overtaken answer comes and the last file fails.
abbrev events : List Event
events =
    file_comes 0
    ∷ path_changes (some "/b")
    ∷ path_changes (some "/c")
    ∷ file_comes 2
    ∷ file_fails 3
    ∷ unmounts
    ∷ []

happen_all-live_example :
    let x = happen_all events (mount (some "/a")) in
    (x.mounted ≡ true → x.live ≡ to_list x.source) × (x.mounted ≡ false → x.live ≡ [])
happen_all-live_example = happen_all-live (some "/a") events
