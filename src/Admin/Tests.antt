-- ===== src/Admin/Tests.antt =====
-- The administration of a reader, apps/web/src/pages/AdminReadersPage.tsx, at concrete inputs.
use novel_platform.Common.Text.{str_eq}
use novel_platform.Admin.ReaderList.{
  Texts, ReaderFilter, ReaderPage, is_active_reader, keeps, filter, filtered_readers,
}
use novel_platform.Common.{true, none, some, [], ◌∷◌, ◌≡◌, refl}
use novel_platform.Admin.ReaderDetail.{
  Zone, suspended, Credential, ReaderIdentity, revoke, Detail, initial_detail,
}

-- Eight hours ahead of UTC.
abbrev shanghai : Zone
shanghai = record { behind = 0; ahead = 480 }

abbrev credential : Credential
credential = record {
  expires_at = 30000000;
  max_devices = 3;
  allow_new_devices = true;
  lifecycle_status = suspended;
  effective_status = "suspended";
  hint = "ab12";
}

abbrev identity : ReaderIdentity
identity = record {
  id = "r1";
  display_name = "R";
  admin_note = none;
  status = "active";
  credential = some credential;
}

abbrev asking : Detail
asking = record (initial_detail shanghai 29000000 identity) { confirm_action = some revoke }

abbrev plain : Texts
plain = record { trim = λ s. s; lower = λ s. s; includes = str_eq }

abbrev signed : ReaderIdentity
signed = record identity {
  id = "r2";
  credential = some (record credential { effective_status = "active" });
}

-- The list is narrowed to the active readers while another one is selected.
abbrev narrowed : ReaderPage
narrowed = record {
  readers = identity ∷ signed ∷ [];
  selected_reader_id = some "r1";
  query = "";
  reader_filter = ReaderFilter.active;
}

filtered_readers-narrowed : filtered_readers plain narrowed ≡ signed ∷ []
unfolding filtered_readers filter keeps is_active_reader
filtered_readers-narrowed = refl
