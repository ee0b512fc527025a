-- ===== src/Api/Endpoints/Admin.antt =====
-- The methods of `api` (apps/web/src/api/client.ts) for the administrator.
use novel_platform.Common.{String, true, false, Option, List, [], ◌∷◌}
use novel_platform.Common.Text.{◌⧺◌}
use novel_platform.Api.Types.{get, post, patch, Endpoint}
use novel_platform.Api.Endpoints.{Platform, request, search_set}

pub record AuditFilters : Type 0 where
  pub event_type : Option String
  pub subject_user_id : Option String
  pub outcome : Option String
  pub created_from : Option String
  pub created_to : Option String

pub data AdminCall : Type 0 where
  get_admin_site patch_admin_site list_readers create_reader : AdminCall
  get_reader patch_reader : String → AdminCall
  suspend_reader_credential resume_reader_credential revoke_reader_credential : String → AdminCall
  reissue_reader_credential revoke_reader_sessions list_reader_devices : String → AdminCall
  revoke_reader_device : String → String → AdminCall
  reader_audit : String → AdminCall
  list_audit : AuditFilters → AdminCall

abbrev of_reader : String → String → String
of_reader id rest = "/api/v1/admin/readers/" ⧺ (id ⧺ rest)

module _ (p : Platform) where
  open p use {query_text}

  unfoldable pub audit_search : AuditFilters → List (String × String)
  unfolding search_set
  audit_search f = search_set "created_to" f.created_to (
      search_set "created_from" f.created_from (
        search_set "outcome" f.outcome (
          search_set "subject_user_id" f.subject_user_id
            (search_set "event_type" f.event_type (("limit", "200") ∷ ("offset", "0") ∷ [])))))

  unfoldable pub admin : AdminCall → Endpoint
  admin get_admin_site = request get "/api/v1/admin/site" false
  admin patch_admin_site = request patch "/api/v1/admin/site" true
  admin list_readers = request get "/api/v1/admin/readers" false
  admin create_reader = request post "/api/v1/admin/readers" true
  admin (get_reader id) = request get ("/api/v1/admin/readers/" ⧺ id) false
  admin (patch_reader id) = request patch ("/api/v1/admin/readers/" ⧺ id) true
  admin (suspend_reader_credential id) = request post (of_reader id "/credential/suspend") false
  admin (resume_reader_credential id) = request post (of_reader id "/credential/resume") false
  admin (revoke_reader_credential id) = request post (of_reader id "/credential/revoke") false
  admin (reissue_reader_credential id) = request post (of_reader id "/credential/reissue") true
  admin (revoke_reader_sessions id) = request post (of_reader id "/sessions/revoke-all") false
  admin (list_reader_devices id) = request get (of_reader id "/devices") false
  admin (revoke_reader_device id device) =
      request post (of_reader id ("/devices/" ⧺ (device ⧺ "/revoke"))) false
  admin (reader_audit id) = request get (of_reader id "/audit") false
  admin (list_audit f) = request get ("/api/v1/admin/audit?" ⧺ query_text (audit_search f)) false
