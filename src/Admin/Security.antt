-- ===== src/Admin/Security.antt =====
-- `AdminSecurityPage` (apps/web/src/pages/AdminSecurityPage.tsx): the passkeys and sessions of an
-- administrator, who may be there to recover the account. A handler is split at its `await`s; errors are
-- the texts that `userFacingError` gives. `S` is the type of the site's settings.
pub mod Recovery
mod Tests
use novel_platform.Common.{
  String, Bool, true, false, not, Option, none, some, List, [], ◌∷◌, if◌then◌else◌,
}
use novel_platform.Api.Types.{TokenResponse}
use novel_platform.Auth.Routes.{recovery_mode}
use novel_platform.Auth.Provider.{Provider, register_passkey, logout}

pub record Passkey : Type 0 where
  pub id : String
  pub name : String

pub record Session : Type 0 where
  pub id : String
  pub is_current : Bool

pub record SecurityPage (S : Type 0) : Type 0 where
  pub passkeys : List Passkey
  pub sessions : List Session
  pub site : Option S
  pub names : List (String × String)
  pub new_name : String
  pub is_loading : Bool
  pub busy : Bool
  pub error : Option String
  pub message : Option String

-- `Promise.all` of the three requests of `load`.
pub data Loaded (S : Type 0) : Type 0 where
  listed : List Passkey → List Session → S → Loaded S
  failed : String → Loaded S

-- `Object.fromEntries`: a later name takes the place of an earlier.
unfoldable pub entries : List Passkey → List (String × String) → List (String × String)
entries [] names = names
entries (k ∷ ks) names = entries ks ((k.id, k.name) ∷ names)

register_text : Bool → String
register_text true = "新 Passkey 已登记；恢复会话已作废并升级为正常管理员会话。"
register_text false = "新 Passkey 已登记。"

module _ {S : Type 0} where
  -- `load`, up to its `await`; the argument is `recoveryMode`.
  unfoldable pub load : Bool → SecurityPage S → SecurityPage S
  load true p = p
  load false p = record p { is_loading = true; error = none }

  unfoldable pub load_answered : Loaded S → SecurityPage S → SecurityPage S
  unfolding entries
  load_answered (listed passkeys sessions site) p = record p {
    passkeys = passkeys;
    sessions = sessions;
    site = some site;
    names = entries passkeys [];
    is_loading = false;
  }
  load_answered (failed message) p = record p { error = some message; is_loading = false }

  -- `useState`, and the effect that loads.
  unfoldable pub mounted : Bool → SecurityPage S
  unfolding load
  mounted recovery = load recovery (record {
    passkeys = [];
    sessions = [];
    site = none;
    names = [];
    new_name = "我的 Passkey";
    is_loading = not recovery;
    busy = false;
    error = none;
    message = none;
  })

  -- `register`, up to its `await`.
  unfoldable pub register : SecurityPage S → SecurityPage S
  register p = record p { busy = true; error = none; message = none }

  -- `register` after its `await`; outside of a recovery it goes on with `load`.
  unfoldable pub registered : Bool → SecurityPage S → SecurityPage S
  unfolding load register_text
  registered true p = record p {
    new_name = "我的 Passkey";
    message = some (register_text true);
    busy = false;
  }
  registered false p =
      load false (record p { new_name = "我的 Passkey"; message = some (register_text false) })

  -- The `catch` and the `finally` of the handlers.
  unfoldable pub handler_failed : String → SecurityPage S → SecurityPage S
  handler_failed message p = record p { error = some message; busy = false }

  -- `rename`, `revoke` and `revokeSession`, up to their `await`.
  unfoldable pub begin : SecurityPage S → SecurityPage S
  begin p = record p { busy = true; error = none }

  -- The same after it, with the handler's message; a handler has the `recoveryMode` of its closure.
  unfoldable pub reload : Bool → String → SecurityPage S → SecurityPage S
  unfolding load
  reload recovery message p = load recovery (record p { message = some message })

  -- The end of a handler that awaits `load`.
  unfoldable pub handler_ends : SecurityPage S → SecurityPage S
  handler_ends p = record p { busy = false }

  -- The effect on `[load]` runs again when `recoveryMode` changes.
  unfoldable pub rerender : Bool → Bool → SecurityPage S → SecurityPage S
  unfolding load
  rerender true true p = p
  rerender true false p = load false p
  rerender false true p = load true p
  rerender false false p = p

  -- `auth.registerPasskey` is answered: the provider and the page, which is then rendered again.
  unfoldable pub registration_answered :
      Option TokenResponse → SecurityPage S × Provider S → SecurityPage S × Provider S
  unfolding registered rerender
  registration_answered authentication (p, auth) =
      let auth' = register_passkey authentication auth in
      let recovery = recovery_mode auth.session in
      (rerender recovery (recovery_mode auth'.session) (registered recovery p), auth')

  -- `api.revokeSession` is answered.
  unfoldable pub revocation_answered :
      Session → SecurityPage S × Provider S → SecurityPage S × Provider S
  unfolding reload handler_ends
  revocation_answered session (p, auth) =
      if session.is_current
      then (handler_ends p, logout auth)
      else (reload (recovery_mode auth.session) "管理员会话已撤销。" p, auth)
