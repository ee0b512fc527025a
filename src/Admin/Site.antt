-- ===== src/Admin/Site.antt =====
-- `AdminSitePage` (apps/web/src/pages/AdminSitePage.tsx): the settings of the site, which are edited in place,
-- and the requests that save them. `trim` is JavaScript's.
pub mod Saving
mod Tests
use novel_platform.Common.Text.{or_null}
use novel_platform.Common.{ℕ, String, Bool, true, false, Option, none, some, ◌+◌, ◌-◌}

pub record SiteSettings : Type 0 where
  pub site_name : String
  pub purpose_statement : String
  pub privacy_statement : String
  pub icp_registration_number : Option String
  pub icp_registration_url : Option String
  pub default_reader_max_devices : ℕ
  pub audit_retention_days : ℕ

-- `saves` counts the requests that await an answer.
pub record SitePage : Type 0 where
  pub site : Option SiteSettings
  pub is_saving : Bool
  pub error : Option String
  pub message : Option String
  pub saves : ℕ

unfoldable pub mounted : SitePage
mounted = record { site = none; is_saving = false; error = none; message = none; saves = 0 }

-- `load`, up to its `await`, and with its answer.
unfoldable pub start_load : SitePage → SitePage
start_load p = record p { error = none }

unfoldable pub loaded : SiteSettings → SitePage → SitePage
loaded site p = record p { site = some site }

unfoldable pub load_failed : String → SitePage → SitePage
load_failed message p = record p { error = some message }

-- `update`, which changes a field of the settings that are there.
unfoldable pub update : (SiteSettings → SiteSettings) → SitePage → SitePage
update change p = elim p.site [ none ↦ p | some site ↦ record p { site = some (change site) } ]

-- `text?.trim() || null`
unfoldable pub trimmed : (String → String) → Option String → Option String
trimmed trim none = none
trimmed trim (some t) = or_null (trim t)

-- What `save` sends.
unfoldable pub patch_of : (String → String) → SiteSettings → SiteSettings
unfolding trimmed
patch_of trim site = record site {
  icp_registration_number = trimmed trim site.icp_registration_number;
  icp_registration_url = trimmed trim site.icp_registration_url;
}

-- `save`, up to its `await`: the patch that is sent, if there are settings.
unfoldable pub save : (String → String) → SitePage → Option SiteSettings × SitePage
unfolding patch_of
save trim p = elim p.site [
  | none ↦ (none, p)
  | some site ↦ (
    some (patch_of trim site),
    record p { is_saving = true; error = none; message = none; saves = p.saves + 1 },
  )
]

-- `save` with its answer.
unfoldable pub saved : SiteSettings → SitePage → SitePage
saved updated p = record p {
  site = some updated;
  message = some "站点设置已保存；公开登录页会使用这些内容。";
  is_saving = false;
  saves = p.saves - 1;
}

unfoldable pub save_failed : String → SitePage → SitePage
save_failed message p = record p { error = some message; is_saving = false; saves = p.saves - 1 }
