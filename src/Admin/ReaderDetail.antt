-- ===== src/Admin/ReaderDetail.antt =====
-- `ReaderDetail` of apps/web/src/pages/AdminReadersPage.tsx. An instant is a number of seconds, and the
-- wall clock of a `datetime-local` field a number of minutes; the zone of the browser has one offset.
pub mod Expiry
pub mod Actions
use novel_platform.Common.Text.{str_eq}
use novel_platform.Common.{
  ℕ, ◌+◌, ◌-◌, ◌*◌, ◌/◌, ◌%◌, String, Bool, true, false, not, ◌&&◌, ◌||◌, Option, none, some, List,
  [], ◌∷◌, ◌++◌, if◌then◌else◌, is_some, or_else,
}

-- `getTimezoneOffset()` is `behind - ahead`.
pub record Zone : Type 0 where
  pub behind : ℕ
  pub ahead : ℕ

pub data LifecycleStatus : Type 0 where
  active suspended revoked : LifecycleStatus

pub record Credential : Type 0 where
  pub expires_at : ℕ
  pub max_devices : ℕ
  pub allow_new_devices : Bool
  pub lifecycle_status : LifecycleStatus
  pub effective_status : String
  pub hint : String

-- `ReaderIdentity`
pub record ReaderIdentity : Type 0 where
  pub id : String
  pub display_name : String
  pub admin_note : Option String
  pub status : String
  pub credential : Option Credential

pub record Device : Type 0 where
  pub is_revoked : Bool
  pub active_session_count : ℕ

pub record SecurityEvent : Type 0 where
  pub id : String

-- `DetailTab`
pub data DetailTab : Type 0 where
  overview devices sessions events : DetailTab

-- `ConfirmAction`
pub data ConfirmAction : Type 0 where
  reissue revoke revoke_sessions : ConfirmAction

pub record Limits : Type 0 where
  pub expires_at : ℕ
  pub max_devices : ℕ
  pub allow_new_devices : Bool

pub data Request : Type 0 where
  patch_reader : String → Option String → Limits → Request
  suspend_credential resume_credential revoke_credential revoke_all_sessions : Request
  reissue_credential : Limits → Request

pub record Detail : Type 0 where
  pub reader : ReaderIdentity
  pub display_name : String
  pub admin_note : String
  pub expires_at : ℕ
  pub max_devices : ℕ
  pub allow_new_devices : Bool
  pub active_tab : DetailTab
  pub devices : Option (List Device)
  pub events : Option (List SecurityEvent)
  pub is_security_loading : Bool
  pub busy : Bool
  pub error : Option String
  pub confirm_action : Option ConfirmAction
  pub sent : List Request

-- 30 days from now, on the wall clock, whose minute has begun.
unfoldable pub default_expiry : Zone → ℕ → ℕ
default_expiry z now = (now + 2592000) / 60 + z.ahead - z.behind

-- A text without a zone is read as the wall clock's, at the start of its minute.
unfoldable pub expiry_iso : Zone → ℕ → ℕ
expiry_iso z wall = (wall + z.behind - z.ahead) * 60

-- `toISOString().slice(0, 16)` shows the minute of the clock of UTC, without the seconds.
unfoldable pub initial_expiry : Zone → ℕ → Option Credential → ℕ
unfolding default_expiry
initial_expiry z now none = default_expiry z now
initial_expiry z now (some c) = c.expires_at / 60

unfoldable pub initial_detail : Zone → ℕ → ReaderIdentity → Detail
unfolding initial_expiry
initial_detail z now reader = record {
  reader = reader;
  display_name = reader.display_name;
  admin_note = or_else reader.admin_note "";
  expires_at = initial_expiry z now reader.credential;
  max_devices = elim (reader.credential) [ none ↦ 3 | some c ↦ c.max_devices ];
  allow_new_devices = elim (reader.credential) [ none ↦ true | some c ↦ c.allow_new_devices ];
  active_tab = overview;
  devices = none;
  events = none;
  is_security_loading = false;
  busy = false;
  error = none;
  confirm_action = none;
  sent = [];
}

-- The sum of `reduce`.
unfoldable pub session_count : List Device → ℕ
session_count [] = 0
session_count (d ∷ ds) = (if d.is_revoked then 0 else d.active_session_count) + session_count ds

-- The two answers of `loadSecurityDetails`, or the error of one.
pub data Loaded : Type 0 where
  details : List Device → List SecurityEvent → Loaded
  details_failed : String → Loaded

unfoldable pub load_security_details : Loaded → Detail → Detail
load_security_details (details ds es) d = record d {
  error = none;
  devices = some ds;
  events = some es;
  is_security_loading = false;
}
load_security_details (details_failed m) d = record d {
  error = some m;
  is_security_loading = false;
}

-- How `run` and then `onChanged` go.
pub data Ran : Type 0 where
  all_done : Ran
  run_failed change_failed : String → Ran

-- `runAction` from its call to its end.
unfoldable pub run_action : Request → Ran → Loaded → Detail → Bool × Detail
unfolding load_security_details
run_action request all_done loaded d =
    let d' = record d { error = none; sent = d.sent ++ request ∷ [] } in
    (
      true,
      record (if is_some d.devices || is_some d.events
          then load_security_details loaded d'
          else d') { busy = false },
    )
run_action request (run_failed m) loaded d =
    (false, record d { error = some m; busy = false; sent = d.sent ++ request ∷ [] })
run_action request (change_failed m) loaded d =
    (false, record d { error = some m; busy = false; sent = d.sent ++ request ∷ [] })

abbrev pub limits_of : Zone → Detail → Limits
limits_of z d = record {
  expires_at = expiry_iso z d.expires_at;
  max_devices = d.max_devices;
  allow_new_devices = d.allow_new_devices;
}

-- `save`; `trim` is JavaScript's.
unfoldable pub save : (String → String) → Zone → Ran → Loaded → Detail → Detail
unfolding run_action
save trim z ran loaded d =
    let note = trim d.admin_note in
    (run_action
      (patch_reader d.display_name (if str_eq note "" then none else some note) (limits_of z d)) ran
      loaded d).1

abbrev pub is_overview : DetailTab → Bool
is_overview overview = true
is_overview _ = false

unfoldable pub select_tab : DetailTab → Loaded → Detail → Detail
unfolding load_security_details
select_tab tab loaded d =
    let d' = record d { active_tab = tab } in
    if not (is_overview tab)
      && (not (is_some d.devices && is_some d.events) && not d.is_security_loading)
    then load_security_details loaded d'
    else d'

abbrev pub request_of : ConfirmAction → Zone → Detail → Request
request_of revoke z d = revoke_credential
request_of revoke_sessions z d = revoke_all_sessions
request_of reissue z d = reissue_credential (limits_of z d)

abbrev pub close_if : Bool × Detail → Detail
close_if (succeeded, d) = if succeeded then record d { confirm_action = none } else d

unfoldable pub execute : Option ConfirmAction → Zone → Ran → Loaded → Detail → Detail
unfolding run_action
execute none z ran loaded d = d
execute (some a) z ran loaded d = close_if (run_action (request_of a z d) ran loaded d)

unfoldable pub execute_confirmed_action : Zone → Ran → Loaded → Detail → Detail
unfolding execute
execute_confirmed_action z ran loaded d = execute d.confirm_action z ran loaded d

-- The keys of `actionItems`.
pub data MenuKey : Type 0 where
  suspend_item resume_item : MenuKey
  danger_item : ConfirmAction → MenuKey

abbrev switch_items : Option Credential → List MenuKey
switch_items none = []
switch_items (some c) = elim (c.lifecycle_status) [
  | suspended ↦ resume_item ∷ []
  | active ↦ suspend_item ∷ []
  | revoked ↦ []
]

abbrev revoke_items : Option Credential → List MenuKey
revoke_items none = danger_item revoke ∷ []
revoke_items (some c) = elim (c.lifecycle_status) [ revoked ↦ [] | _ ↦ danger_item revoke ∷ [] ]

unfoldable pub action_items : Option Credential → List MenuKey
action_items c =
    switch_items c ++ danger_item reissue ∷ danger_item revoke_sessions ∷ revoke_items c

unfoldable pub handle_menu_action : MenuKey → Ran → Loaded → Detail → Detail
unfolding run_action
handle_menu_action suspend_item ran loaded d = (run_action suspend_credential ran loaded d).1
handle_menu_action resume_item ran loaded d = (run_action resume_credential ran loaded d).1
handle_menu_action (danger_item a) ran loaded d = record d { confirm_action = some a }

-- The keys of `handleTabKeyDown` that move.
pub data TabKey : Type 0 where
  arrow_right arrow_left home end : TabKey

-- The index of the tab that a key leads to, among `count` tabs.
unfoldable pub next_tab : TabKey → (count current : ℕ) → ℕ
next_tab arrow_right count current = (current + 1) % count
next_tab arrow_left count current = (current + count - 1) % count
next_tab home count current = 0
next_tab end count current = count - 1
