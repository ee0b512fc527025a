-- ===== src/Auth/Provider.antt =====
-- `AuthProvider` (apps/web/src/auth/AuthProvider.tsx) as a machine over what its requests are answered
-- with. `S` is the type of the public settings of the site.
pub mod Consistent
use novel_platform.Common.{
  String, Bool, true, false, Option, none, some, List, [], ◌∷◌, if◌then◌else◌,
}
use novel_platform.Api.Types.{
  User, LoginDevice, LoginSession, TokenResponse, Token, text, undefined,
}
use novel_platform.Auth.Routes.{AuthPhase, loading, anonymous, authenticated, AuthView}

-- How far the effect has come that runs when the provider is mounted.
pub data Startup : Type 0 where
  fetching_site refreshing started : Startup

-- `access_token` is the client's; `active` is that of the effect, during which the client's handler is
-- `clearAuth`.
pub record Provider (S : Type 0) : Type 0 where
  pub phase : AuthPhase
  pub user : Option User
  pub device : Option LoginDevice
  pub session : Option LoginSession
  pub site : Option S
  pub site_error : Bool
  pub access_token : Option Token
  pub active : Bool
  pub startup : Startup

module _ {S : Type 0} where
  unfoldable pub mounted : Provider S
  mounted = record {
    phase = loading;
    user = none;
    device = none;
    session = none;
    site = none;
    site_error = false;
    access_token = none;
    active = true;
    startup = fetching_site;
  }

  unfoldable pub clear_auth : Provider S → Provider S
  clear_auth p = record p {
    access_token = none;
    user = none;
    device = none;
    session = none;
    phase = anonymous;
  }

  unfoldable pub apply_token_response : TokenResponse → Provider S → Provider S
  apply_token_response result p = record p {
    user = some result.user;
    device = some result.device;
    session = some result.session;
    phase = authenticated;
  }

  -- `applyTokenResponse` with an answer that has none of these members; `none` stands for `undefined`, too.
  unfoldable pub apply_bare_response : Provider S → Provider S
  apply_bare_response p = record p {
    user = none;
    device = none;
    session = none;
    phase = authenticated;
  }

  -- The client stores the token of an answer before the provider reads it.
  unfoldable pub store_token : TokenResponse → Provider S → Provider S
  store_token result p = record p { access_token = some (text result.access_token) }

  unfoldable pub refresh_site : Option S → Provider S → Provider S
  refresh_site none p = record p { site_error = true }
  refresh_site (some site) p = record p { site = some site; site_error = false }

  -- The effect's first `try`.
  unfoldable pub site_answered : Option S → Provider S → Provider S
  unfolding refresh_site
  site_answered answer p =
      let p' = record p { startup = refreshing } in if p.active then refresh_site answer p' else p'

  -- The effect's second `try`.
  unfoldable pub refresh_answered : Option TokenResponse → Provider S → Provider S
  unfolding apply_token_response clear_auth store_token
  refresh_answered (some result) p =
      let p' = store_token result (record p { startup = started }) in
      if p.active then apply_token_response result p' else p'
  refresh_answered none p =
      let p' = record p { startup = started } in if p.active then clear_auth p' else p'

  -- `login` and `loginWithPasskey`, with the answer to the request that signs in.
  unfoldable pub login : TokenResponse → Provider S → Provider S
  unfolding apply_token_response store_token
  login result p = apply_token_response result (store_token result p)

  -- The same with an answer that is no token response, of which the client stores `undefined`.
  unfoldable pub login_bare : Provider S → Provider S
  unfolding apply_bare_response
  login_bare p = apply_bare_response (record p { access_token = some undefined })

  -- The effect's second `try` with such an answer.
  unfoldable pub refresh_answered_bare : Provider S → Provider S
  unfolding apply_bare_response
  refresh_answered_bare p =
      let p' = record p { startup = started; access_token = some undefined } in
      if p.active then apply_bare_response p' else p'

  -- `registerPasskey`; the answer has an `authentication` when a recovery session ends by it.
  unfoldable pub register_passkey : Option TokenResponse → Provider S → Provider S
  unfolding login
  register_passkey none p = p
  register_passkey (some result) p = login result p

  -- `logout`: the `finally` runs whether `api.logout` fails or not.
  unfoldable pub logout : Provider S → Provider S
  unfolding clear_auth
  logout p = clear_auth p

  unfoldable pub update_display_name : User → Provider S → Provider S
  update_display_name user p = record p { user = some user }

  unfoldable pub unmount : Provider S → Provider S
  unmount p = record p { active = false }

  -- The client reports that a session has ended, if the handler is set.
  unfoldable pub auth_failed : Provider S → Provider S
  unfolding clear_auth
  auth_failed p = if p.active then clear_auth p else p

  abbrev pub view : Provider S → AuthView
  view p = record { phase = p.phase; user = p.user; session = p.session }

-- The answers to the provider's requests, the `bare` ones without the members of a token response, and the
-- calls of the client.
pub data Event (S : Type 0) : Type 0 where
  site_answer : Option S → Event S
  refresh_answer : Option TokenResponse → Event S
  signs_in : TokenResponse → Event S
  signs_in_bare refreshes_bare : Event S
  registers : Option TokenResponse → Event S
  signs_out fails unmounts : Event S
  renames : User → Event S
  site_refreshed : Option S → Event S

module _ {S : Type 0} where
  unfoldable pub provide : Event S → Provider S → Provider S
  unfolding site_answered refresh_answered login login_bare refresh_answered_bare register_passkey
      logout auth_failed unmount update_display_name refresh_site
  provide (site_answer a) p = site_answered a p
  provide (refresh_answer a) p = refresh_answered a p
  provide (signs_in r) p = login r p
  provide signs_in_bare p = login_bare p
  provide refreshes_bare p = refresh_answered_bare p
  provide (registers r) p = register_passkey r p
  provide signs_out p = logout p
  provide fails p = auth_failed p
  provide unmounts p = unmount p
  provide (renames u) p = update_display_name u p
  provide (site_refreshed a) p = refresh_site a p

  unfoldable pub provide_all : List (Event S) → Provider S → Provider S
  provide_all [] p = p
  provide_all (e ∷ es) p = provide_all es (provide e p)
