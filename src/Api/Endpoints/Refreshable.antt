-- ===== src/Api/Endpoints/Refreshable.antt =====
-- Which methods of `api` (apps/web/src/api/client.ts) answer a 401 by a refresh.
use novel_platform.Common.{String, Bool, true, false, not, ◌≡◌, ◌≢◌, refl, arith}
use novel_platform.Common.Text.{◌⧺◌, str_eq, diverges, str_eq_iff, str_eq-append_of_diverges}
use text.Mathlib.TextLemmas.{append_cancel_left}
use novel_platform.Api.Types.{Endpoint}
use novel_platform.Api.Client.{can_refresh}
use novel_platform.Api.Endpoints.{Platform}
use novel_platform.Api.Endpoints.Account.{
  AccountCall, login, passkey_authentication_options, verify_passkey_authentication, rename_passkey,
  revoke_passkey, account,
}
use novel_platform.Api.Endpoints.Library.{LibraryCall, library}
use novel_platform.Api.Endpoints.Reading.{ReadingCall, fetch_protected_file, reading}
use novel_platform.Api.Endpoints.Admin.{AdminCall, admin}

-- A path that has left the exempt ones behind may refresh, whatever follows.
prefix_refreshes :
    (p x : String)
    → diverges p "/api/v1/auth/login" ≡ true
    → diverges p "/api/v1/auth/refresh" ≡ true
    → diverges p "/api/v1/auth/passkeys/authentication/options" ≡ true
    → diverges p "/api/v1/auth/passkeys/authentication/verify" ≡ true
    → can_refresh (p ⧺ x) ≡ true
unfolding can_refresh
prefix_refreshes p x a b c d = rw (
  str_eq-append_of_diverges p _ x a,
  str_eq-append_of_diverges p _ x b,
  str_eq-append_of_diverges p _ x c,
  str_eq-append_of_diverges p _ x d,
)

-- A 401 to any call on books, editions, imports or series may be answered by a refresh.
library_refreshes : (p : Platform) (c : LibraryCall) → can_refresh (library p c).path ≡ true
unfolding library can_refresh
library_refreshes p (LibraryCall.list_books f l o) =
    prefix_refreshes "/api/v1/books?"
      (p.query_text (novel_platform.Api.Endpoints.Library.book_search p f l o)) refl refl refl refl
library_refreshes p LibraryCall.create_book = refl
library_refreshes p (LibraryCall.get_book b) =
    prefix_refreshes "/api/v1/books/" b refl refl refl refl
library_refreshes p (LibraryCall.patch_book b) =
    prefix_refreshes "/api/v1/books/" b refl refl refl refl
library_refreshes p (LibraryCall.delete_book b) =
    prefix_refreshes "/api/v1/books/" b refl refl refl refl
library_refreshes p (LibraryCall.create_edition b) =
    prefix_refreshes "/api/v1/books/" (b ⧺ "/editions") refl refl refl refl
library_refreshes p (LibraryCall.patch_edition b e) =
    prefix_refreshes "/api/v1/books/" (b ⧺ "/editions/" ⧺ e) refl refl refl refl
library_refreshes p (LibraryCall.delete_edition b e) =
    prefix_refreshes "/api/v1/books/" (b ⧺ "/editions/" ⧺ e) refl refl refl refl
library_refreshes p (LibraryCall.get_preferences b) =
    prefix_refreshes "/api/v1/books/" (b ⧺ "/preferences") refl refl refl refl
library_refreshes p (LibraryCall.patch_preferences b) =
    prefix_refreshes "/api/v1/books/" (b ⧺ "/preferences") refl refl refl refl
library_refreshes p LibraryCall.inspect_import = refl
library_refreshes p (LibraryCall.get_import i) =
    prefix_refreshes "/api/v1/imports/" i refl refl refl refl
library_refreshes p (LibraryCall.commit_import i) =
    prefix_refreshes "/api/v1/imports/" (i ⧺ "/commit") refl refl refl refl
library_refreshes p (LibraryCall.delete_import i) =
    prefix_refreshes "/api/v1/imports/" i refl refl refl refl
library_refreshes p LibraryCall.list_series = refl
library_refreshes p LibraryCall.create_series = refl
library_refreshes p (LibraryCall.get_series i) =
    prefix_refreshes "/api/v1/series/" i refl refl refl refl
library_refreshes p (LibraryCall.patch_series i) =
    prefix_refreshes "/api/v1/series/" i refl refl refl refl
library_refreshes p (LibraryCall.delete_series i) =
    prefix_refreshes "/api/v1/series/" i refl refl refl refl
library_refreshes p (LibraryCall.add_book_to_series i b) =
    prefix_refreshes "/api/v1/series/" (i ⧺ "/books/" ⧺ b) refl refl refl refl
library_refreshes p (LibraryCall.remove_book_from_series i b) =
    prefix_refreshes "/api/v1/series/" (i ⧺ "/books/" ⧺ b) refl refl refl refl

-- The same for the reader; a protected file's path comes from the server, as it is.
reading_refreshes :
    (p : Platform) (c : ReadingCall)
    → ((path : String) → c ≢ fetch_protected_file path)
    → can_refresh (reading p c).path ≡ true
unfolding reading can_refresh
reading_refreshes p (ReadingCall.open_reader e) h =
    prefix_refreshes "/api/v1/editions/" (e ⧺ "/reader/open") refl refl refl refl
reading_refreshes p (ReadingCall.get_reader_section e x) h =
    prefix_refreshes "/api/v1/editions/" (e ⧺ "/reader/sections/" ⧺ p.encode_component x) refl refl
      refl refl
reading_refreshes p (ReadingCall.get_reader_resource e x) h =
    prefix_refreshes "/api/v1/editions/" (e ⧺ "/reader/resources/" ⧺ p.encode_component x) refl refl
      refl refl
reading_refreshes p (ReadingCall.save_reading_progress e) h =
    prefix_refreshes "/api/v1/editions/" (e ⧺ "/reader/progress") refl refl refl refl
reading_refreshes p ReadingCall.get_reader_settings h = refl
reading_refreshes p ReadingCall.patch_reader_settings h = refl
reading_refreshes p (ReadingCall.recent_reading n) h =
    prefix_refreshes "/api/v1/reader/recent?limit=" (p.number_text n) refl refl refl refl
reading_refreshes p (fetch_protected_file path) h = absurd (h path refl)

admin_refreshes : (p : Platform) (c : AdminCall) → can_refresh (admin p c).path ≡ true
unfolding admin can_refresh
admin_refreshes p AdminCall.get_admin_site = refl
admin_refreshes p AdminCall.patch_admin_site = refl
admin_refreshes p AdminCall.list_readers = refl
admin_refreshes p AdminCall.create_reader = refl
admin_refreshes p (AdminCall.get_reader i) =
    prefix_refreshes "/api/v1/admin/readers/" i refl refl refl refl
admin_refreshes p (AdminCall.patch_reader i) =
    prefix_refreshes "/api/v1/admin/readers/" i refl refl refl refl
admin_refreshes p (AdminCall.suspend_reader_credential i) =
    prefix_refreshes "/api/v1/admin/readers/" (i ⧺ "/credential/suspend") refl refl refl refl
admin_refreshes p (AdminCall.resume_reader_credential i) =
    prefix_refreshes "/api/v1/admin/readers/" (i ⧺ "/credential/resume") refl refl refl refl
admin_refreshes p (AdminCall.revoke_reader_credential i) =
    prefix_refreshes "/api/v1/admin/readers/" (i ⧺ "/credential/revoke") refl refl refl refl
admin_refreshes p (AdminCall.reissue_reader_credential i) =
    prefix_refreshes "/api/v1/admin/readers/" (i ⧺ "/credential/reissue") refl refl refl refl
admin_refreshes p (AdminCall.revoke_reader_sessions i) =
    prefix_refreshes "/api/v1/admin/readers/" (i ⧺ "/sessions/revoke-all") refl refl refl refl
admin_refreshes p (AdminCall.list_reader_devices i) =
    prefix_refreshes "/api/v1/admin/readers/" (i ⧺ "/devices") refl refl refl refl
admin_refreshes p (AdminCall.revoke_reader_device i d) =
    prefix_refreshes "/api/v1/admin/readers/" (i ⧺ "/devices/" ⧺ d ⧺ "/revoke") refl refl refl refl
admin_refreshes p (AdminCall.reader_audit i) =
    prefix_refreshes "/api/v1/admin/readers/" (i ⧺ "/audit") refl refl refl refl
admin_refreshes p (AdminCall.list_audit f) =
    prefix_refreshes "/api/v1/admin/audit?"
      (p.query_text (novel_platform.Api.Endpoints.Admin.audit_search p f)) refl refl refl refl

passkeys_cancel :
    (id rest : String) → id ≢ rest → "/api/v1/auth/passkeys/" ⧺ id ≢ "/api/v1/auth/passkeys/" ⧺ rest
passkeys_cancel id rest h e = h (append_cancel_left "/api/v1/auth/passkeys/" id rest e)

not_str_eq : (s t : String) → s ≢ t → str_eq s t ≡ false
not_str_eq s t h = ground (arith, str_eq_iff s t)

passkey_refreshes :
    (id : String)
    → id ≢ "authentication/options"
    → id ≢ "authentication/verify"
    → can_refresh ("/api/v1/auth/passkeys/" ⧺ id) ≡ true
unfolding can_refresh
passkey_refreshes id a b = rw (
  str_eq-append_of_diverges "/api/v1/auth/passkeys/" "/api/v1/auth/login" id refl,
  str_eq-append_of_diverges "/api/v1/auth/passkeys/" "/api/v1/auth/refresh" id refl,
  not_str_eq ("/api/v1/auth/passkeys/" ⧺ id) _ (passkeys_cancel id "authentication/options" a),
  not_str_eq ("/api/v1/auth/passkeys/" ⧺ id) _ (passkeys_cancel id "authentication/verify" b),
)

-- The three calls that sign in.
abbrev pub is_sign_in : AccountCall → Bool
is_sign_in login = true
is_sign_in passkey_authentication_options = true
is_sign_in verify_passkey_authentication = true
is_sign_in _ = false

-- The identifier of a passkey is not the rest of an address that signs in.
abbrev pub HasPlainId : AccountCall → Type 0
HasPlainId (rename_passkey id) = (id ≢ "authentication/options") × (id ≢ "authentication/verify")
HasPlainId (revoke_passkey id) = (id ≢ "authentication/options") × (id ≢ "authentication/verify")
HasPlainId _ = Unit {0}

account_refreshes :
    (c : AccountCall) → HasPlainId c → can_refresh (account c).path ≡ not (is_sign_in c)
unfolding account can_refresh
account_refreshes AccountCall.live h = refl
account_refreshes AccountCall.ready h = refl
account_refreshes AccountCall.public_site h = refl
account_refreshes AccountCall.login h = refl
account_refreshes AccountCall.passkey_authentication_options h = refl
account_refreshes AccountCall.verify_passkey_authentication h = refl
account_refreshes AccountCall.passkey_registration_options h = refl
account_refreshes AccountCall.verify_passkey_registration h = refl
account_refreshes AccountCall.list_passkeys h = refl
account_refreshes (rename_passkey id) h = passkey_refreshes id h.0 h.1
account_refreshes (revoke_passkey id) h = passkey_refreshes id h.0 h.1
account_refreshes AccountCall.me h = refl
account_refreshes AccountCall.logout h = refl
account_refreshes AccountCall.list_sessions h = refl
account_refreshes (AccountCall.revoke_session i) h =
    prefix_refreshes "/api/v1/auth/sessions/" i refl refl refl refl
account_refreshes AccountCall.revoke_other_sessions h = refl
account_refreshes AccountCall.list_devices h = refl
account_refreshes (AccountCall.rename_device i) h =
    prefix_refreshes "/api/v1/devices/" i refl refl refl refl
account_refreshes (AccountCall.revoke_device i) h =
    prefix_refreshes "/api/v1/devices/" (i ⧺ "/revoke") refl refl refl refl
account_refreshes AccountCall.update_profile h = refl

pub data ApiCall : Type 0 where
  on_account : AccountCall → ApiCall
  on_library : LibraryCall → ApiCall
  on_reading : ReadingCall → ApiCall
  on_admin : AdminCall → ApiCall

abbrev pub endpoint : Platform → ApiCall → Endpoint
endpoint p (on_account c) = account c
endpoint p (on_library c) = library p c
endpoint p (on_reading c) = reading p c
endpoint p (on_admin c) = admin p c

abbrev pub signs_in : ApiCall → Bool
signs_in (on_account c) = is_sign_in c
signs_in _ = false

-- Its address is made by the client alone: a passkey has a plain identifier, and the call fetches no
-- protected file.
abbrev pub HasOwnAddress : ApiCall → Type 0
HasOwnAddress (on_account c) = HasPlainId c
HasOwnAddress (on_reading c) = (path : String) → c ≢ fetch_protected_file path
HasOwnAddress _ = Unit {0}

-- Whatever identifiers and filters it is given, a call is excluded from the refresh exactly if it is
-- one of the three that sign in; passkeys named like an address that signs in, and the protected
-- files, whose addresses the server chooses, apart.
pub can_refresh-endpoint :
    (p : Platform) (c : ApiCall)
    → HasOwnAddress c
    → can_refresh (endpoint p c).path ≡ not (signs_in c)
can_refresh-endpoint p (on_account c) h = account_refreshes c h
can_refresh-endpoint p (on_library c) h = library_refreshes p c
can_refresh-endpoint p (on_reading c) h = reading_refreshes p c h
can_refresh-endpoint p (on_admin c) h = admin_refreshes p c
