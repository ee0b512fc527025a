-- ===== src/Admin/ReaderDetail/Actions.antt =====
-- The actions that `ReaderDetail` of apps/web/src/pages/AdminReadersPage.tsx offers.
use novel_platform.Common.{
  ℕ, ◌<◌, false, Option, none, some, List, [], ◌∷◌, ◌++◌, ◌≡◌, ◌≢◌, ◌↔◌, ◌⊎◌, inl, inr, refl, arith,
}
use novel_platform.Admin.ReaderDetail.{
  Zone, LifecycleStatus, active, suspended, revoked, Credential, ConfirmAction, reissue, revoke,
  revoke_sessions, Detail, Ran, all_done, Loaded, run_action, request_of, execute,
  execute_confirmed_action, MenuKey, suspend_item, resume_item, danger_item, action_items,
  handle_menu_action, arrow_right, arrow_left, next_tab, load_security_details, suspend_credential,
  resume_credential,
}

-- Confirming sends the request of the chosen action once and leaves the page not busy; the question is
-- closed exactly if the request and the reload went well, and an error is shown otherwise.
execute_confirmed_action-confirm :
    (a : ConfirmAction) (z : Zone) (r : Ran) (l : Loaded) (d : Detail)
    → d.confirm_action ≡ some a
    → let d' = execute_confirmed_action z r l d in
      (d'.sent ≡ d.sent ++ request_of a z d ∷ [])
      × (d'.busy ≡ false)
      × ((d'.confirm_action ≡ none) ↔ (r ≡ all_done))
      × (r ≢ all_done → d'.error ≢ none)
unfolding execute_confirmed_action execute run_action load_security_details
execute_confirmed_action-confirm a z r l d h = ground arith

-- Asks for a confirmation, or suspends an active credential, or resumes a suspended one.
abbrev pub Guarded : Option Credential → Ran → Loaded → Detail → MenuKey → Type 0
Guarded c r l d k =
    (((handle_menu_action k r l d).sent ≡ d.sent)
      × ((handle_menu_action k r l d).confirm_action ≢ none))
    ⊎ ((e : Credential) × (c ≡ some e)
        × (((e.lifecycle_status ≡ active)
              × ((handle_menu_action k r l d).sent ≡ d.sent ++ suspend_credential ∷ []))
            ⊎ ((e.lifecycle_status ≡ suspended)
                × ((handle_menu_action k r l d).sent ≡ d.sent ++ resume_credential ∷ []))))

abbrev pub Every : (MenuKey → Type 0) → List MenuKey → Type 0
Every P [] = Unit
Every P (k ∷ ks) = P k × Every P ks

Guarded-danger :
    (a : ConfirmAction) (c : Option Credential) (r : Ran) (l : Loaded) (d : Detail)
    → Guarded c r l d (danger_item a)
unfolding handle_menu_action
Guarded-danger a c r l d = inl (refl, ground arith)

suspend-sent :
    (r : Ran) (l : Loaded) (d : Detail)
    → ((handle_menu_action suspend_item r l d).sent ≡ d.sent ++ suspend_credential ∷ [])
      × ((handle_menu_action resume_item r l d).sent ≡ d.sent ++ resume_credential ∷ [])
unfolding handle_menu_action run_action load_security_details
suspend-sent r l d = ground arith

items-Guarded :
    (s : LifecycleStatus) (c : Credential) (r : Ran) (l : Loaded) (d : Detail)
    → c.lifecycle_status ≡ s
    → Every (Guarded (some c) r l d) (action_items (some (record c { lifecycle_status = s })))
unfolding action_items
items-Guarded active c r l d h = (
  inr (c, refl, inl (h, (suspend-sent r l d).0)),
  (
    Guarded-danger reissue (some c) r l d,
    (Guarded-danger revoke_sessions (some c) r l d, (Guarded-danger revoke (some c) r l d, tt)),
  ),
)
items-Guarded suspended c r l d h = (
  inr (c, refl, inr (h, (suspend-sent r l d).1)),
  (
    Guarded-danger reissue (some c) r l d,
    (Guarded-danger revoke_sessions (some c) r l d, (Guarded-danger revoke (some c) r l d, tt)),
  ),
)
items-Guarded revoked c r l d h =
    (Guarded-danger reissue (some c) r l d, (Guarded-danger revoke_sessions (some c) r l d, tt))

-- The menu sends a request by itself only to suspend an active credential or to resume a suspended
-- one; each other item that it offers asks for a confirmation and sends nothing.
action_items-Guarded :
    (c : Option Credential) (r : Ran) (l : Loaded) (d : Detail)
    → Every (Guarded c r l d) (action_items c)
unfolding action_items
action_items-Guarded none r l d = (
  Guarded-danger reissue none r l d,
  (Guarded-danger revoke_sessions none r l d, (Guarded-danger revoke none r l d, tt)),
)
action_items-Guarded (some c) r l d = items-Guarded c.lifecycle_status c r l d refl

-- The arrow keys stay among the four tabs, and each undoes the other.
pub next_tab-inverse :
    (i : ℕ)
    → i < 4
    → (next_tab arrow_right 4 i < 4)
      × (next_tab arrow_left 4 i < 4)
      × (next_tab arrow_left 4 (next_tab arrow_right 4 i) ≡ i)
      × (next_tab arrow_right 4 (next_tab arrow_left 4 i) ≡ i)
unfolding next_tab
next_tab-inverse i h = (omega arith, omega arith, omega arith, omega arith)
