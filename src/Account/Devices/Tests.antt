-- ===== src/Account/Devices/Tests.antt =====
-- The page of apps/web/src/pages/DevicesPage.tsx at concrete events.
use novel_platform.Common.{true, false, List, [], ◌∷◌}
use novel_platform.Account.Devices.{Device, listed, done, failed, mounted}
use novel_platform.Account.Devices.Idle.{
  Awaited, Event, asks_rename, asks_revoke, request_ends, happen_all, happen_all-Awaited,
}

abbrev desk : Device
desk = record { id = "d1"; name = "desk"; is_current = true }

abbrev phone : Device
phone = record { id = "d2"; name = "phone"; is_current = false }

-- Another device is revoked while this one is renamed, and that rename fails.
abbrev events : List Event
events =
    request_ends 0 (listed (desk ∷ phone ∷ []))
    ∷ asks_revoke phone
    ∷ asks_rename desk
    ∷ request_ends 0 done
    ∷ request_ends 1 (failed "offline")
    ∷ request_ends 0 (listed (desk ∷ []))
    ∷ []

happen_all-Awaited_example : Awaited (happen_all events mounted)
happen_all-Awaited_example = happen_all-Awaited events
