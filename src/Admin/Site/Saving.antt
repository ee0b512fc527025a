-- ===== src/Admin/Site/Saving.antt =====
-- What apps/web/src/pages/AdminSitePage.tsx sends, and what it shows of it once it is saved.
use novel_platform.Common.Text.{str_eq, or_null}
use novel_platform.Common.{
  String, false, Option, none, some, ◌≡◌, refl, arith, Bool-cases, inl, inr,
}
use novel_platform.Admin.Site.{SiteSettings, SitePage, trimmed, patch_of, save, saved}

module _ (trim : String → String) (trim_twice : (t : String) → trim (trim t) ≡ trim t) where
  trimmed-or_null : (t : String) → trimmed trim (or_null (trim t)) ≡ or_null (trim t)
  unfolding trimmed
  trimmed-or_null t = elim (Bool-cases (str_eq (trim t) "")) [
    | inl e ↦ rw e refl
    | inr e ↦ rw (e, trim_twice t, e) refl
  ]

  trimmed-trimmed : (o : Option String) → trimmed trim (trimmed trim o) ≡ trimmed trim o
  unfolding trimmed
  trimmed-trimmed none = refl
  trimmed-trimmed (some t) = trimmed-or_null t

  patch_of-patch_of :
      (site : SiteSettings) → patch_of trim (patch_of trim site) ≡ patch_of trim site
  unfolding patch_of
  patch_of-patch_of site =
      rw (trimmed-trimmed site.icp_registration_number, trimmed-trimmed site.icp_registration_url)
        refl

  -- If the server stores the settings as they are sent and answers with them, and trimming twice is trimming
  -- once: after a save the page shows what was sent, and saving again sends the same.
  save-saved :
      (site : SiteSettings) (p : SitePage)
      → p.site ≡ some site
      → let sent = patch_of trim site in
        let p' = saved sent (save trim p).1 in
        ((save trim p).0 ≡ some sent)
        × (p'.site ≡ some sent)
        × ((save trim p').0 ≡ some sent)
        × (p'.saves ≡ p.saves)
        × (p'.is_saving ≡ false)
        × (p'.error ≡ none)
  unfolding save saved
  save-saved site p e = rw (e, patch_of-patch_of site) (refl, refl, refl, omega arith, refl, refl)
