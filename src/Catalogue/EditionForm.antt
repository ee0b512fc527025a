-- ===== src/Catalogue/EditionForm.antt =====
-- `EditionCreateForm` (apps/web/src/features/editions/EditionCreateForm.tsx), and the label by which
-- apps/web/src/shared/labels.ts names an edition. Errors are the texts that `userFacingError` gives.
pub mod Labels
mod Tests
use novel_platform.Common.Text.{str_eq}
use novel_platform.Common.{String, Bool, true, false, Option, none, some, if◌then◌else◌}

-- `TranslationOrigin`
pub data TranslationOrigin : Type 0 where
  ai human mixed unknown : TranslationOrigin

-- `EditionPreset`
pub data EditionPreset : Type 0 where
  source : EditionPreset
  translated : TranslationOrigin → EditionPreset

pub data CreationMethod : Type 0 where
  uploaded generated edited converted : CreationMethod

pub data EditionStatus : Type 0 where
  draft ready archived : EditionStatus

pub data ContentRole : Type 0 where
  source_role translation_role : ContentRole

-- `presetLabels`
unfoldable pub preset_labels : EditionPreset → String
preset_labels source = "原文"
preset_labels (translated ai) = "AI 译文"
preset_labels (translated human) = "人工译文"
preset_labels (translated mixed) = "混合译文"
preset_labels (translated unknown) = "来源未知译文"

-- `translationOriginLabels`
unfoldable pub translation_origin_labels : TranslationOrigin → String
translation_origin_labels ai = "AI 译文"
translation_origin_labels human = "人工译文"
translation_origin_labels mixed = "混合译文"
translation_origin_labels unknown = "来源未知译文"

unfoldable pub edition_role_label : ContentRole → Option TranslationOrigin → String
unfolding translation_origin_labels
edition_role_label source_role origin = "原文"
edition_role_label translation_role none = "译文"
edition_role_label translation_role (some origin) = translation_origin_labels origin

unfoldable pub default_methods : EditionPreset → CreationMethod
default_methods source = uploaded
default_methods (translated ai) = generated
default_methods (translated human) = uploaded
default_methods (translated mixed) = edited
default_methods (translated unknown) = uploaded

pub record EditionForm : Type 0 where
  pub preset : EditionPreset
  pub title : String
  pub language : String
  pub method : CreationMethod
  pub source_id : String
  pub supersedes_id : String
  pub status : EditionStatus
  pub is_submitting : Bool
  pub error : Option String

-- The body of `api.createEdition`, without its `revision`, which is 1.
pub record EditionCreation : Type 0 where
  pub title : String
  pub language : String
  pub content_role : ContentRole
  pub translation_origin : Option TranslationOrigin
  pub creation_method : CreationMethod
  pub source_edition_id : Option String
  pub supersedes_edition_id : Option String
  pub status : EditionStatus

unfoldable pub initial_form : EditionForm
initial_form = record {
  preset = source;
  title = "";
  language = "";
  method = uploaded;
  source_id = "";
  supersedes_id = "";
  status = ready;
  is_submitting = false;
  error = none;
}

choose_source : EditionPreset → EditionForm → EditionForm
choose_source source f = record f { source_id = "" }
choose_source (translated origin) f = f

unfoldable pub choose_preset : EditionPreset → EditionForm → EditionForm
unfolding default_methods choose_source
choose_preset preset f =
    choose_source preset (record f { preset = preset; method = default_methods preset })

-- `id || null`
unfoldable pub id_or_null : String → Option String
id_or_null id = if str_eq id "" then none else some id

abbrev pub role_of : EditionPreset → ContentRole
role_of source = source_role
role_of (translated origin) = translation_role

abbrev pub origin_of : EditionPreset → Option TranslationOrigin
origin_of source = none
origin_of (translated origin) = some origin

source_of : EditionPreset → String → Option String
source_of source id = none
source_of (translated origin) id = id_or_null id

unfoldable pub creation_of : EditionForm → EditionCreation
unfolding id_or_null source_of
creation_of f = record {
  title = f.title;
  language = f.language;
  content_role = role_of f.preset;
  translation_origin = origin_of f.preset;
  creation_method = f.method;
  source_edition_id = source_of f.preset f.source_id;
  supersedes_edition_id = id_or_null f.supersedes_id;
  status = f.status;
}

-- `submit`, up to its `await`: the form and what is sent.
unfoldable pub submit : EditionForm → EditionForm × EditionCreation
unfolding creation_of
submit f = (record f { is_submitting = true; error = none }, creation_of f)

-- `submit` once the edition is created, up to the `await` of `onCreated`.
unfoldable pub submitted : EditionForm → EditionForm
submitted f = record f { title = ""; language = ""; source_id = ""; supersedes_id = "" }

-- The `catch` and the `finally` of `submit`.
unfoldable pub submit_failed : String → EditionForm → EditionForm
submit_failed message f = record f { error = some message; is_submitting = false }

unfoldable pub submit_ends : EditionForm → EditionForm
submit_ends f = record f { is_submitting = false }
