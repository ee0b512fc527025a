-- ===== src/Auth/Shell/Links.antt =====
-- The links that apps/web/src/layouts/AppShell.tsx offers, against the guard of the routes.
use novel_platform.Common.{
  String, Bool, true, false, Option, some, List, [], ◌∷◌, if◌then◌else◌, any, ◌≡◌, refl, arith, ◌∙◌,
}
use novel_platform.Common.Text.{str_eq}
use novel_platform.Api.Types.{User, UserRole, LoginSession}
use novel_platform.Auth.Routes.{
  AuthView, authenticated, recovery_mode, is_admin, Page, library, series, upload, profile, devices,
  sessions, admin_dashboard, admin_readers, admin_security, admin_site, admin_audit, status,
  children, protected_route, element, guarded, app,
}
use novel_platform.Auth.Shell.{
  route_path, NavigationItem, navigation_groups, groups, all_items, leading_to, quick_items,
}

-- The link is the path of a page that the visitor is shown.
abbrev pub LeadsIn : AuthView → NavigationItem → Type 0
LeadsIn auth x = (page : Page) × (route_path page ≡ x.to) × (app page auth ≡ children)

abbrev pub Every : (NavigationItem → Type 0) → List NavigationItem → Type 0
Every P [] = Unit
Every P (x ∷ xs) = P x × Every P xs

if-Every :
    (P : NavigationItem → Type 0) (b : Bool) (xs ys : List NavigationItem)
    → Every P xs
    → Every P ys
    → Every P (if b then xs else ys)
if-Every P true xs ys h k = h
if-Every P false xs ys h k = k

leading_to-Every :
    (P : NavigationItem → Type 0) (paths : List String) (xs : List NavigationItem)
    → Every P xs
    → Every P (leading_to paths xs)
unfolding leading_to
leading_to-Every P paths [] h = tt
leading_to-Every P paths (x ∷ xs) (h, hs) =
    if-Every P (any (str_eq x.to) paths) (x ∷ leading_to paths xs) (leading_to paths xs)
      (h, leading_to-Every P paths xs hs) (leading_to-Every P paths xs hs)

module _ (user : User) (session : Option LoginSession) where
  abbrev visitor : AuthView
  visitor = record { phase = authenticated; user = some user; session = session }

  open_page :
      (page : Page)
      → element page ≡ guarded false false
      → recovery_mode session ≡ false
      → app page visitor ≡ children
  unfolding app protected_route
  open_page page e r = ground arith

  admin_page :
      (page : Page) (recovery : Bool)
      → element page ≡ guarded true recovery
      → is_admin user.role ≡ true
      → (recovery_mode session ≡ true → recovery ≡ true)
      → app page visitor ≡ children
  unfolding app protected_route
  admin_page page recovery e a r = ground arith

  items-LeadsIn :
      (r a : Bool)
      → recovery_mode session ≡ r
      → is_admin user.role ≡ a
      → (r ≡ true → a ≡ true)
      → Every (LeadsIn visitor) (all_items (navigation_groups r a))
  unfolding navigation_groups all_items route_path element
  items-LeadsIn true a h k c =
      ((admin_security, refl, admin_page admin_security true refl (k ∙ c refl) (λ e. refl)), tt)
  items-LeadsIn false true h k c = (
    (library, refl, open_page library refl h),
    (
      (series, refl, open_page series refl h),
      (
        (upload, refl, admin_page upload false refl k (λ e. absurd (ground arith))),
        (
          (
            admin_dashboard,
            refl,
            admin_page admin_dashboard false refl k (λ e. absurd (ground arith)),
          ),
          (
            (
              admin_readers,
              refl,
              admin_page admin_readers false refl k (λ e. absurd (ground arith)),
            ),
            (
              (admin_security, refl, admin_page admin_security true refl k (λ e. refl)),
              (
                (admin_site, refl, admin_page admin_site false refl k (λ e. absurd (ground arith))),
                (
                  (
                    admin_audit,
                    refl,
                    admin_page admin_audit false refl k (λ e. absurd (ground arith)),
                  ),
                  (
                    (profile, refl, open_page profile refl h),
                    (
                      (devices, refl, open_page devices refl h),
                      (
                        (sessions, refl, open_page sessions refl h),
                        (
                          (
                            status,
                            refl,
                            admin_page status false refl k (λ e. absurd (ground arith)),
                          ),
                          tt,
                        ),
                      ),
                    ),
                  ),
                ),
              ),
            ),
          ),
        ),
      ),
    ),
  )
  items-LeadsIn false false h k c = (
    (library, refl, open_page library refl h),
    (
      (series, refl, open_page series refl h),
      (
        (profile, refl, open_page profile refl h),
        (
          (devices, refl, open_page devices refl h),
          ((sessions, refl, open_page sessions refl h), tt),
        ),
      ),
    ),
  )

  -- Each link that the navigation offers to a signed-in visitor, in its groups and among its quick
  -- items, leads to a page that the guard shows, if a recovery session is an administrator's.
  groups-LeadsIn :
      (recovery_mode session ≡ true → user.role ≡ UserRole.admin)
      → let auth : AuthView = record {
        phase = authenticated;
        user = some user;
        session = session;
      } in
        Every (LeadsIn auth) (all_items (groups auth)) × Every (LeadsIn auth) (quick_items auth)
  unfolding groups quick_items
  groups-LeadsIn h =
      let every : Every (LeadsIn visitor) (all_items (groups visitor)) =
        items-LeadsIn (recovery_mode session) (is_admin user.role) refl refl
          (λ r. ground (arith, h r)) in
      (
        every,
        if-Every (LeadsIn visitor) (recovery_mode session) _ _ every (
            if-Every (LeadsIn visitor) (is_admin user.role) _ _
              (leading_to-Every (LeadsIn visitor) ("/" ∷ "/series" ∷ "/upload" ∷ "/admin" ∷ [])
                (all_items (groups visitor)) every)
              (leading_to-Every (LeadsIn visitor) ("/" ∷ "/series" ∷ "/settings/profile" ∷ [])
                (all_items (groups visitor)) every)),
      )
