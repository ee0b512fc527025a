-- ===== src/Catalogue/EditionForm/Tests.antt =====
-- The form of apps/web/src/features/editions/EditionCreateForm.tsx for a generated translation.
use novel_platform.Common.{some, ◌≡◌, refl}
use novel_platform.Catalogue.EditionForm.{
  translated, ai, EditionForm, initial_form, choose_preset, submit,
}

abbrev filled : EditionForm
filled = record initial_form { title = "T"; language = "zh"; source_id = "e1" }

filled_source : (submit (choose_preset (translated ai) filled)).1.source_edition_id ≡ some "e1"
unfolding submit choose_preset initial_form
filled_source = refl
