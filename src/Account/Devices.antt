-- ===== src/Account/Devices.antt =====
-- `DevicesPage` (apps/web/src/pages/DevicesPage.tsx). Its handlers await requests, and nothing keeps two
-- of them from running at once, so the state lists those that run. Errors are the texts that
-- `userFacingError` gives.
pub mod Idle
mod Tests
use Prim.Native.Nat.{zero, suc}
use novel_platform.Common.Text.{str_eq}
use novel_platform.Common.{
  ℕ, String, Bool, true, false, Option, none, some, List, [], ◌∷◌, ◌++◌, get_elem?, if◌then◌else◌,
}
use novel_platform.Auth.Provider.{Provider, logout}

pub record Device : Type 0 where
  pub id : String
  pub name : String
  pub is_current : Bool

-- The request that a handler awaits.
pub data Task : Type 0 where
  loads : Task
  renames revokes : Device → Task
  signs_out : Task
  reloads : Task

pub data Answer : Type 0 where
  done : Answer
  listed : List Device → Answer
  failed : String → Answer

pub record DevicesPage : Type 0 where
  pub devices : List Device
  pub names : List (String × String)
  pub is_loading : Bool
  pub busy_id : Option String
  pub error : Option String
  pub message : Option String
  pub tasks : List Task

-- `useState`, and the effect that loads.
unfoldable pub mounted : DevicesPage
mounted = record {
  devices = [];
  names = [];
  is_loading = true;
  busy_id = none;
  error = none;
  message = none;
  tasks = loads ∷ [];
}

unfoldable pub replace_at : List Task → ℕ → Option Task → List Task
replace_at [] i o = []
replace_at (t ∷ ts) zero none = ts
replace_at (t ∷ ts) zero (some t') = t' ∷ ts
replace_at (t ∷ ts) (suc i) o = t ∷ replace_at ts i o

-- `load`, up to its `await`; the handler at `i` awaits it.
start_load : DevicesPage → DevicesPage
start_load p = record p { is_loading = true; error = none }

-- The button that loads again.
unfoldable pub refresh : DevicesPage → DevicesPage
unfolding start_load
refresh p = start_load (record p { tasks = p.tasks ++ loads ∷ [] })

-- `names[device.id] ?? device.name`
unfoldable pub name_of : List (String × String) → Device → String
name_of [] d = d.name
name_of (pair ∷ pairs) d = if str_eq pair.0 d.id then pair.1 else name_of pairs d

-- `setNames` of the text field.
unfoldable pub edit_name : Device → String → DevicesPage → DevicesPage
edit_name d text p = record p { names = (d.id, text) ∷ p.names }

begin : Device → Task → DevicesPage → DevicesPage
begin d t p = record p {
  busy_id = some d.id;
  error = none;
  message = none;
  tasks = p.tasks ++ t ∷ [];
}

unfoldable pub rename : Device → DevicesPage → DevicesPage
unfolding begin
rename d p = begin d (renames d) p

unfoldable pub revoke : Device → DevicesPage → DevicesPage
unfolding begin
revoke d p = begin d (revokes d) p

-- `finally { setBusyId(null) }` at the end of a handler.
finally_idle : ℕ → DevicesPage → DevicesPage
finally_idle i p = record p { busy_id = none; tasks = replace_at p.tasks i none }

reload : ℕ → String → DevicesPage → DevicesPage
reload i message p =
    start_load (record p { message = some message; tasks = replace_at p.tasks i (some reloads) })

-- `Object.fromEntries`: a later name of the same device takes the place of an earlier.
unfoldable pub entries : List Device → List (String × String) → List (String × String)
entries [] names = names
entries (d ∷ ds) names = entries ds ((d.id, d.name) ∷ names)

-- `load` with its answer.
load_answered : Answer → DevicesPage → DevicesPage
load_answered (listed rows) p = record p {
  devices = rows;
  names = entries rows [];
  is_loading = false;
}
load_answered (failed message) p = record p { error = some message; is_loading = false }
load_answered done p = p

-- Where `await` throws, the handler ends in its `catch`.
unfoldable pub answered : Task → Answer → ℕ → DevicesPage → DevicesPage
unfolding load_answered entries reload start_load finally_idle replace_at
answered loads a i p = load_answered a (record p { tasks = replace_at p.tasks i none })
answered reloads a i p = finally_idle i (load_answered a p)
answered t (failed message) i p = finally_idle i (record p { error = some message })
answered (renames d) a i p = reload i "设备名称已更新。" p
answered (revokes d) a i p =
    if d.is_current
    then record p { tasks = replace_at p.tasks i (some signs_out) }
    else reload i "设备及其会话已撤销。" p
answered signs_out a i p = finally_idle i p

-- `api.listDevices` is answered with rows or an error, the others with nothing or an error.
abbrev pub fits : Task → Answer → Bool
fits t (failed m) = true
fits loads (listed rows) = true
fits reloads (listed rows) = true
fits (renames d) done = true
fits (revokes d) done = true
fits signs_out done = true
fits t a = false

-- `auth.logout` has cleared the provider when its promise settles.
unfoldable pub provider_answered : {S : Type 0} → Task → Provider S → Provider S
unfolding logout
provider_answered signs_out auth = logout auth
provider_answered t auth = auth

answer_of : Option Task → Answer → ℕ → DevicesPage → DevicesPage
answer_of none a i p = p
answer_of (some t) a i p = if fits t a then answered t a i p else p

-- The request of the handler at `i` is answered.
unfoldable pub answers : ℕ → Answer → DevicesPage → DevicesPage
unfolding answer_of answered
answers i a p = answer_of (get_elem? p.tasks i) a i p
