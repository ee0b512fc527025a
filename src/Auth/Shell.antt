-- ===== src/Auth/Shell.antt =====
-- The navigation of `AppShell` (apps/web/src/layouts/AppShell.tsx), and the paths of the route table of
-- apps/web/src/App.tsx that its links lead to.
pub mod Links
use novel_platform.Common.Text.{str_eq}
use novel_platform.Common.{
  ℕ, String, Bool, true, false, not, ◌&&◌, ◌||◌, Option, none, some, List, [], ◌∷◌, ◌++◌,
  if◌then◌else◌, is_some, any, or_else,
}
use text.Mathlib.Text.{starts_with}
use novel_platform.Api.Types.{User, UserRole, LoginSession}
use novel_platform.Auth.Routes.{
  AuthView, recovery_mode, is_admin, Page, login, library, book_detail, series, series_detail,
  series_upload, read, upload, profile, devices, sessions, admin_dashboard, admin_readers,
  admin_security, admin_site, admin_audit, status, not_found,
}

-- The path of a page's route; those of four pages have a parameter.
unfoldable pub route_path : Page → String
route_path login = "/login"
route_path library = "/"
route_path book_detail = "/books/:bookId"
route_path series = "/series"
route_path series_detail = "/series/:seriesId"
route_path series_upload = "/series/:seriesId/upload"
route_path read = "/read/:editionId"
route_path upload = "/upload"
route_path profile = "/settings/profile"
route_path devices = "/settings/devices"
route_path sessions = "/settings/sessions"
route_path admin_dashboard = "/admin"
route_path admin_readers = "/admin/readers"
route_path admin_security = "/admin/security"
route_path admin_site = "/admin/site"
route_path admin_audit = "/admin/audit"
route_path status = "/status"
route_path not_found = "*"

-- `NavigationItem`, without its icon.
pub record NavigationItem : Type 0 where
  pub label : String
  pub to : String

pub record NavigationGroup : Type 0 where
  pub label : String
  pub items : List NavigationItem

-- `auth.user?.role === "admin"`
abbrev pub is_admin_user : Option User → Bool
is_admin_user none = false
is_admin_user (some user) = is_admin user.role

abbrev pub item : String → String → NavigationItem
item label to = record { label = label; to = to }

abbrev pub recovery_groups : List NavigationGroup
recovery_groups = record { label = "账户恢复"; items = item "登记 Passkey" "/admin/security" ∷ [] } ∷ []

abbrev pub reading_group : NavigationGroup
reading_group = record { label = "阅读"; items = item "书库" "/" ∷ item "系列" "/series" ∷ [] }

abbrev pub managing_group : NavigationGroup
managing_group = record {
  label = "馆藏管理";
  items =
      item "上传" "/upload"
      ∷ item "管理" "/admin"
      ∷ item "阅读者" "/admin/readers"
      ∷ item "安全" "/admin/security"
      ∷ item "站点" "/admin/site"
      ∷ item "审计" "/admin/audit"
      ∷ [];
}

abbrev pub personal_group : Bool → NavigationGroup
personal_group admin = record {
  label = "个人";
  items =
      item "身份" "/settings/profile"
      ∷ item "设备" "/settings/devices"
      ∷ item "会话" "/settings/sessions"
      ∷ (if admin then item "状态" "/status" ∷ [] else []);
}

unfoldable pub navigation_groups : (recovery admin : Bool) → List NavigationGroup
navigation_groups true admin = recovery_groups
navigation_groups false true = reading_group ∷ managing_group ∷ personal_group true ∷ []
navigation_groups false false = reading_group ∷ personal_group false ∷ []

-- `groups`, of the visitor.
unfoldable pub groups : AuthView → List NavigationGroup
unfolding navigation_groups
groups auth = navigation_groups (recovery_mode auth.session) (is_admin_user auth.user)

-- `groups.flatMap((group) => group.items)`
unfoldable pub all_items : List NavigationGroup → List NavigationItem
all_items [] = []
all_items (g ∷ gs) = g.items ++ all_items gs

-- `items.filter((item) => paths.includes(item.to))`
unfoldable pub leading_to : List String → List NavigationItem → List NavigationItem
leading_to paths [] = []
leading_to paths (x ∷ xs) =
    let rest = leading_to paths xs in if any (str_eq x.to) paths then x ∷ rest else rest

unfoldable pub quick_items : AuthView → List NavigationItem
unfolding groups all_items leading_to
quick_items auth =
    let items = all_items (groups auth) in
    if recovery_mode auth.session
    then items
    else if is_admin_user auth.user
    then leading_to ("/" ∷ "/series" ∷ "/upload" ∷ "/admin" ∷ []) items
    else leading_to ("/" ∷ "/series" ∷ "/settings/profile" ∷ []) items

unfoldable pub identity_label : AuthView → String
identity_label auth =
    if recovery_mode auth.session
    then "恢复会话"
    else if is_admin_user auth.user
    then "站点管理员"
    else "受邀阅读者"

-- The shell has no navigation where a book is read, and on the sign-in page.
unfoldable pub is_bare : String → Bool
is_bare pathname = starts_with pathname "/read/" || str_eq pathname "/login"
