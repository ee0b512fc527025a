-- ===== src/Account/Sessions.antt =====
-- `SessionsPage` (apps/web/src/pages/SessionsPage.tsx), as a page of Pages. `revoked` writes the message with
-- the number of sessions revoked.
pub mod Kept
mod Tests
use novel_platform.Common.{
  ℕ, String, Bool, true, false, ◌||◌, Option, none, some, is_some, List, [], if◌then◌else◌,
}
use novel_platform.Pages.{Page}

pub record Session : Type 0 where
  pub id : String
  pub is_current : Bool

pub record SessionsPage : Type 0 where
  pub sessions : List Session
  pub is_loading : Bool
  pub is_revoking_others : Bool
  pub busy_id : Option String
  pub error : Option String
  pub message : Option String

-- The buttons of the page, and the requests that they send.
pub data Request : Type 0 where
  revokes : Session → Request
  revokes_others : Request

-- `revoked_count` of the answer to `api.revokeOtherSessions`; the other has no answer.
abbrev pub Answer : Type 0
Answer = Option ℕ

-- What shows that a request runs.
pub data Flag : Type 0 where
  one others : Flag

-- `useState`; the effect has begun the load.
unfoldable pub mounted : SessionsPage
mounted = record {
  sessions = [];
  is_loading = true;
  is_revoking_others = false;
  busy_id = none;
  error = none;
  message = none;
}

-- `load`, up to its `await`.
start_load : SessionsPage → SessionsPage
start_load p = record p { is_loading = true; error = none }

loaded : List Session → SessionsPage → SessionsPage
loaded rows p = record p { sessions = rows; is_loading = false }

load_failed : String → SessionsPage → SessionsPage
load_failed message p = record p { error = some message; is_loading = false }

-- `revoke` and `revokeOthers`, up to their first `await`.
begin : Request → SessionsPage → SessionsPage
begin (revokes s) p = record p { busy_id = some s.id; error = none }
begin revokes_others p = record p { is_revoking_others = true; error = none }

-- The `finally` of the handlers.
ended : Request → SessionsPage → SessionsPage
ended (revokes s) p = record p { busy_id = none }
ended revokes_others p = record p { is_revoking_others = false }

-- The `catch` of the handlers.
failed : Request → String → SessionsPage → SessionsPage
unfolding ended
failed r message p = ended r (record p { error = some message })

module _ (revoked : ℕ → String) where
  -- The handlers between the answer and the load. The session of this page ends in `auth.logout`.
  accepted : Request → Answer → SessionsPage → SessionsPage
  accepted (revokes s) a p = if s.is_current then p else record p { message = some "会话已撤销。" }
  accepted revokes_others (some count) p = record p { message = some (revoked count) }
  accepted revokes_others none p = p

-- `if (session.is_current) { await auth.logout(); return; }`
leaves : Request → Bool
leaves (revokes s) = s.is_current
leaves revokes_others = false

-- The `loading` of the buttons.
busy : Flag → SessionsPage → Bool
busy one p = is_some p.busy_id
busy others p = p.is_revoking_others

holds : Flag → Request → Bool
holds one (revokes s) = true
holds others revokes_others = true
holds f r = false

-- The page has no fields to write in.
unfoldable pub sessions_page :
    (ℕ → String) → Page (List Session) Request ⊥ Request Answer SessionsPage Flag
unfolding start_load loaded load_failed begin ended failed accepted leaves busy holds
sessions_page revoked = record {
  edit = λ e p. p;
  begin = λ r p. some (r, begin r p);
  start_load = start_load;
  loaded = loaded;
  load_failed = load_failed;
  accepted = accepted revoked;
  failed = failed;
  ended = ended;
  leaves = leaves;
  shown = λ p. some p.sessions;
  error = λ p. p.error;
  is_loading = λ p. p.is_loading;
  busy = busy;
  holds = holds;
}
