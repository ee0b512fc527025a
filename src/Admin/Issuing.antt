-- ===== src/Admin/Issuing.antt =====
-- `AdminReadersPage` (apps/web/src/pages/AdminReadersPage.tsx) around its list: the readers are loaded,
-- one is created, and the credential that is issued is shown until it is put away. Focus and the layout
-- of small screens are left out.
pub mod Credentials
pub mod Selecting
mod Tests
use novel_platform.Common.Text.{str_eq}
use novel_platform.Common.{
  ℕ, String, Bool, true, false, Option, none, some, List, [], ◌∷◌, ◌++◌, length, if◌then◌else◌,
  ◌==◌, is_some,
}
use novel_platform.Admin.ReaderDetail.{Zone, ReaderIdentity, default_expiry, expiry_iso}
use novel_platform.Admin.ReaderList.{Texts, ReaderFilter, ReaderPage, select_visible}

-- `IssuedReaderCredential`
pub record Issued : Type 0 where
  pub reader : ReaderIdentity
  pub access_credential : String

-- The fields of the form that creates a reader.
pub record Form : Type 0 where
  pub display_name : String
  pub admin_note : String
  pub expires_at : ℕ
  pub max_devices : ℕ
  pub allow_new_devices : Bool

-- The body of `api.createReader`.
pub record Creation : Type 0 where
  pub display_name : String
  pub admin_note : Option String
  pub expires_at : ℕ
  pub max_devices : ℕ
  pub allow_new_devices : Bool

-- `sent` lists the bodies that `create` has sent.
pub record Issuing : Type 0 where
  pub list : ReaderPage
  pub mobile_detail_open : Bool
  pub create_open : Bool
  pub form : Form
  pub issued : Option Issued
  pub is_loading : Bool
  pub is_creating : Bool
  pub error : Option String
  pub create_error : Option String
  pub copy_status : Option String
  pub sent : List Creation

unfoldable pub empty_form : Zone → ℕ → Form
unfolding default_expiry
empty_form z now = record {
  display_name = "";
  admin_note = "";
  expires_at = default_expiry z now;
  max_devices = 3;
  allow_new_devices = true;
}

unfoldable pub load_failed : String → Issuing → Issuing
load_failed message p = record p { error = some message; is_loading = false }

unfoldable pub start_load : Issuing → Issuing
start_load p = record p { error = none }

unfoldable pub show_issued : Issued → Issuing → Issuing
show_issued issued p = record p { copy_status = none; issued = some issued }

unfoldable pub reset_create_form : Zone → ℕ → Issuing → Issuing
unfolding empty_form
reset_create_form z now p = record p { form = empty_form z now; create_error = none }

note_of : String → Option String
note_of note = if str_eq note "" then none else some note

unfoldable pub create_failed : String → Issuing → Issuing
create_failed message p = record p { create_error = some message; is_creating = false }

unfoldable pub create_unlisted : String → Issuing → Issuing
unfolding load_failed
create_unlisted message p = record (load_failed message p) { is_creating = false }

abbrev copy_text : Bool → String
copy_text true = "已复制。请通过安全渠道交给阅读者。"
copy_text false = "浏览器不允许自动复制，请手动复制。"

-- `copyCredential`, with whether the clipboard takes the text.
unfoldable pub copy_credential : Bool → Issuing → Issuing
copy_credential copies p =
    if is_some p.issued then record p { copy_status = some (copy_text copies) } else p

unfoldable pub close_mobile_detail : Issuing → Issuing
close_mobile_detail p = record p { mobile_detail_open = false }

-- The button that opens the form.
unfoldable pub open_create : Issuing → Issuing
open_create p = record p { create_open = true }

-- The dialogue is closed without creating, if `create` does not run.
unfoldable pub cancel_create : Zone → ℕ → Issuing → Issuing
unfolding reset_create_form
cancel_create z now p =
    if p.is_creating then p else reset_create_form z now (record p { create_open = false })

-- The button by which the credential is put away.
unfoldable pub put_away : Issuing → Issuing
put_away p = record p { issued = none; copy_status = none }

module _ (texts : Texts) where
  -- The effect on `[filteredReaders, readers.length, selectedReaderId]`.
  unfoldable pub settle : Issuing → Issuing
  unfolding select_visible
  settle p =
      let p' = record p { list = select_visible texts p.list } in
      if length p.list.readers == 0 then record p' { mobile_detail_open = false } else p'

  -- `load` with the rows that it is answered with.
  unfoldable pub readers_listed : List ReaderIdentity → Issuing → Issuing
  unfolding settle
  readers_listed rows p =
      settle (record p { list = record p.list { readers = rows }; is_loading = false })

  -- `create`, up to its `await`.
  unfoldable pub create : Zone → Issuing → Issuing
  unfolding note_of
  create z p = record p {
    is_creating = true;
    create_error = none;
    sent =
        p.sent
        ++ record {
          display_name = p.form.display_name;
          admin_note = note_of (texts.trim p.form.admin_note);
          expires_at = expiry_iso z p.form.expires_at;
          max_devices = p.form.max_devices;
          allow_new_devices = p.form.allow_new_devices;
        }
          ∷ [];
  }

  -- `create` with its answer, up to the `await` of `load`.
  unfoldable pub created : Zone → ℕ → Issued → Issuing → Issuing
  unfolding settle start_load show_issued reset_create_form
  created z now result p = settle (
      start_load (
        reset_create_form z now (
          show_issued result (record p {
            create_open = false;
            list = record p.list { selected_reader_id = some result.reader.id };
            mobile_detail_open = true;
          }))))

  -- The end of `create`, with the answer to `load`.
  unfoldable pub create_listed : List ReaderIdentity → Issuing → Issuing
  unfolding readers_listed
  create_listed rows p = record (readers_listed rows p) { is_creating = false }

  unfoldable pub select_reader : String → Issuing → Issuing
  unfolding settle
  select_reader id p = settle (record p {
    list = record p.list { selected_reader_id = some id };
    mobile_detail_open = true;
  })
