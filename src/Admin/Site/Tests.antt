-- ===== src/Admin/Site/Tests.antt =====
-- The settings of apps/web/src/pages/AdminSitePage.tsx at concrete values.
use novel_platform.Common.{
  String, false, none, some, ◌≡◌, refl, if◌then◌else◌, Bool-cases, inl, inr,
}
use novel_platform.Common.Text.{str_eq}
use novel_platform.Admin.Site.{SiteSettings, SitePage, update, trimmed, patch_of, save, saved}

-- A blank becomes empty, and other texts stay.
abbrev trim : String → String
trim t = if str_eq t " " then "" else t

trim_twice : (t : String) → trim (trim t) ≡ trim t
trim_twice t = elim (Bool-cases (str_eq t " ")) [ inl e ↦ rw e refl | inr e ↦ rw (e, e) refl ]

abbrev site : SiteSettings
site = record {
  site_name = "Novels";
  purpose_statement = "reading";
  privacy_statement = "none";
  icp_registration_number = some " ";
  icp_registration_url = none;
  default_reader_max_devices = 3;
  audit_retention_days = 90;
}

abbrev page : SitePage
page = record { site = some site; is_saving = false; error = none; message = none; saves = 0 }

blank_is_null : (patch_of trim site).icp_registration_number ≡ none
unfolding patch_of trimmed
blank_is_null = refl

-- A change that is made while the settings are saved is taken back by the answer.
taken_back :
    let sent = patch_of trim site in
    (saved sent (update (λ s. record s { audit_retention_days = 30 }) (save trim page).1)).site
    ≡ some sent
unfolding update save saved patch_of trimmed
taken_back = refl
