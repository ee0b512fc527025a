-- ===== src/Admin/Security/Tests.antt =====
-- The page of apps/web/src/pages/AdminSecurityPage.tsx at the end of a recovery.
use novel_platform.Common.{String, true, false, some, [], ◌≡◌, refl}
use novel_platform.Api.Types.{UserRole, TokenResponse}
use novel_platform.Auth.Routes.{Page, children, app}
use novel_platform.Auth.Provider as Providers
use novel_platform.Auth.Provider.{Provider, login, view}
use novel_platform.Admin.Security.{listed, mounted, register, load_answered, registration_answered}
use novel_platform.Admin.Security.Recovery.{registration_answered-recovery}

abbrev recovering : TokenResponse
recovering = record {
  access_token = "t1";
  user = record { id = "u1"; display_name = "Owner"; role = UserRole.admin };
  device = record { id = "d1"; name = "desk" };
  session = record { id = "s1"; recovery_mode = true };
}

abbrev recovered : TokenResponse
recovered = record recovering {
  access_token = "t2";
  session = record { id = "s2"; recovery_mode = false };
}

abbrev auth : Provider String
auth = login recovering Providers.mounted

registration_answered-recovery_example :
    let (p', auth') = registration_answered (some recovered) (register (mounted true), auth) in
    (p'.busy ≡ false)
    × (p'.is_loading ≡ true)
    × ((load_answered (listed [] [] "site") p').is_loading ≡ false)
    × ((page : Page) → app page (view auth') ≡ children)
unfolding login
registration_answered-recovery_example =
    registration_answered-recovery recovered (register (mounted true)) auth (listed [] [] "site")
      refl refl refl
