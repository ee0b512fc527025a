-- ===== src/Catalogue/EditionForm/Labels.antt =====
-- The edition that apps/web/src/features/editions/EditionCreateForm.tsx describes, and its label.
use novel_platform.Common.{none, ◌≡◌, ◌≢◌, ◌↔◌, refl, arith}
use novel_platform.Catalogue.EditionForm.{
  TranslationOrigin, ai, human, mixed, unknown, EditionPreset, source, translated, translation_role,
  preset_labels, translation_origin_labels, edition_role_label, default_methods, EditionForm,
  choose_source, choose_preset, source_of, creation_of, submit,
}

-- The two tables of labels agree.
same_labels :
    (origin : TranslationOrigin)
    → translation_origin_labels origin ≡ preset_labels (translated origin)
unfolding translation_origin_labels preset_labels
same_labels ai = refl
same_labels human = refl
same_labels mixed = refl
same_labels unknown = refl

-- What is sent after a choice is labelled as that choice, names an origin exactly if it is a translation,
-- names a source only then, and is made by the method that the choice stands for.
submit-label :
    (preset : EditionPreset) (f : EditionForm)
    → let c = (submit (choose_preset preset f)).1 in
      (edition_role_label c.content_role c.translation_origin ≡ preset_labels preset)
      × ((c.translation_origin ≢ none) ↔ (c.content_role ≡ translation_role))
      × (c.source_edition_id ≢ none → c.content_role ≡ translation_role)
      × (c.creation_method ≡ default_methods preset)
unfolding submit choose_preset choose_source creation_of source_of edition_role_label preset_labels
    default_methods
submit-label source f =
    (refl, (λ n. absurd (n refl), λ e. absurd (ground arith)), λ n. absurd (n refl), refl)
submit-label (translated origin) f =
    (same_labels origin, (λ n. refl, λ e. ground arith), λ n. refl, refl)
