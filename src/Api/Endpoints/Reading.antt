-- ===== src/Api/Endpoints/Reading.antt =====
-- The methods of `api` (apps/web/src/api/client.ts) for the reader and for protected files.
use novel_platform.Common.{ℕ, String, true, false}
use novel_platform.Common.Text.{◌⧺◌}
use novel_platform.Api.Types.{get, post, patch, Endpoint}
use novel_platform.Api.Endpoints.{Platform, request, request_blob}

pub data ReadingCall : Type 0 where
  open_reader : String → ReadingCall
  get_reader_section get_reader_resource : String → String → ReadingCall
  save_reading_progress : String → ReadingCall
  get_reader_settings patch_reader_settings : ReadingCall
  recent_reading : ℕ → ReadingCall
  fetch_protected_file : String → ReadingCall

module _ (p : Platform) where
  open p use {number_text, encode_component}

  unfoldable pub reading : ReadingCall → Endpoint
  reading (open_reader edition) =
      request post ("/api/v1/editions/" ⧺ (edition ⧺ "/reader/open")) false
  reading (get_reader_section edition section) =
      request get
        ("/api/v1/editions/" ⧺ (edition ⧺ ("/reader/sections/" ⧺ encode_component section))) false
  reading (get_reader_resource edition resource) =
      request_blob
        ("/api/v1/editions/" ⧺ (edition ⧺ ("/reader/resources/" ⧺ encode_component resource)))
  reading (save_reading_progress edition) =
      request patch ("/api/v1/editions/" ⧺ (edition ⧺ "/reader/progress")) true
  reading get_reader_settings = request get "/api/v1/reader/settings" false
  reading patch_reader_settings = request patch "/api/v1/reader/settings" true
  reading (recent_reading limit) =
      request get ("/api/v1/reader/recent?limit=" ⧺ number_text limit) false
  reading (fetch_protected_file path) = request_blob path
