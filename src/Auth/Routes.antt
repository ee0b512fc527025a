-- ===== src/Auth/Routes.antt =====
-- apps/web/src/auth/ProtectedRoute.tsx and the route table of apps/web/src/App.tsx. Matching a
-- location against the table is the router library's; the model starts at the matched route.
pub mod Guard
pub mod Redirects
use novel_platform.Common.{String, Bool, true, false, not, ◌&&◌, Option, none, some, if◌then◌else◌}
use novel_platform.Api.Types.{UserRole, User, LoginSession}

pub data AuthPhase : Type 0 where
  loading anonymous authenticated : AuthPhase

-- What `ProtectedRoute` renders.
pub data Rendered : Type 0 where
  loading_block : Rendered
  navigate : String → Rendered
  children : Rendered

-- The fields of `useAuth()` that the guard reads.
pub record AuthView : Type 0 where
  pub phase : AuthPhase
  pub user : Option User
  pub session : Option LoginSession

abbrev is_loading : AuthPhase → Bool
is_loading loading = true
is_loading _ = false

abbrev is_authenticated : AuthPhase → Bool
is_authenticated authenticated = true
is_authenticated _ = false

abbrev pub is_admin : UserRole → Bool
is_admin UserRole.admin = true
is_admin UserRole.reader = false

-- `auth.session?.recovery_mode`
abbrev pub recovery_mode : Option LoginSession → Bool
recovery_mode none = false
recovery_mode (some s) = s.recovery_mode

-- The checks below the two on `phase`, for a user that is there.
abbrev admit : Bool → Bool → Option LoginSession → User → Rendered
admit admin recovery session user =
    if admin && not (is_admin user.role)
    then navigate "/"
    else if recovery_mode session && not recovery
    then navigate "/admin/security"
    else children

unfoldable pub protected_route : Bool → Bool → AuthView → Rendered
protected_route admin recovery auth =
    if is_loading auth.phase
    then loading_block
    else if not (is_authenticated auth.phase)
    then navigate "/login"
    else elim auth.user [
      | none ↦ navigate "/login"
      | some user ↦ admit admin recovery auth.session user
    ]

-- The pages of `App`.
pub data Page : Type 0 where
  login library book_detail series series_detail series_upload read upload profile devices
        sessions :
      Page
  admin_dashboard admin_readers admin_security admin_site admin_audit status not_found : Page

-- An `element`: bare, or inside `<Protected admin recovery>`.
pub data Element : Type 0 where
  bare : Element
  guarded : Bool → Bool → Element

unfoldable pub element : Page → Element
element login = bare
element library = guarded false false
element book_detail = guarded false false
element series = guarded false false
element series_detail = guarded false false
element series_upload = guarded true false
element read = guarded false false
element upload = guarded true false
element profile = guarded false false
element devices = guarded false false
element sessions = guarded false false
element admin_dashboard = guarded true false
element admin_readers = guarded true false
element admin_security = guarded true true
element admin_site = guarded true false
element admin_audit = guarded true false
element status = guarded true false
element not_found = bare

-- The page that a matched route shows to the given user.
unfoldable pub app : Page → AuthView → Rendered
app page auth = elim (element page) [
  | bare ↦ children
  | guarded admin recovery ↦ protected_route admin recovery auth
]
