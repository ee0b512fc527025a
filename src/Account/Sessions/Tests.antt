-- ===== src/Account/Sessions/Tests.antt =====
-- The page of apps/web/src/pages/SessionsPage.tsx with a server that holds a list of sessions.
use novel_platform.Common.{
  ℕ, String, true, false, none, some, List, [], ◌∷◌, length, ◌-◌, if◌then◌else◌,
}
use novel_platform.Common.Text.{str_eq}
use novel_platform.Pages.{ok, Server, Event, acts, serves, delivers}
use novel_platform.Account.Sessions.{Session, Request, revokes, revokes_others, Answer}

abbrev here : Session
here = record { id = "s1"; is_current = true }

abbrev phone : Session
phone = record { id = "s2"; is_current = false }

abbrev tablet : Session
tablet = record { id = "s3"; is_current = false }

abbrev without : String → List Session → List Session
without id [] = []
without id (s ∷ ss) = if str_eq id s.id then without id ss else s ∷ without id ss

abbrev keep_current : List Session → List Session
keep_current [] = []
keep_current (s ∷ ss) = if s.is_current then s ∷ keep_current ss else keep_current ss

abbrev server : Server (List Session) (List Session) Request Answer
server = record {
  read = ok;
  apply = elim [
    | revokes s ↦ λ ss. ok (without s.id ss, none)
    | revokes_others ↦ λ ss. ok (keep_current ss, some (length ss - length (keep_current ss)))
  ];
}

-- Two sessions are revoked at once; the load after the first is answered before the second is revoked.
abbrev events : List (Event Request ⊥)
events =
    serves 0
    ∷ delivers 0
    ∷ acts (revokes phone)
    ∷ acts (revokes tablet)
    ∷ serves 0
    ∷ delivers 0
    ∷ serves 1
    ∷ serves 0
    ∷ delivers 0
    ∷ delivers 0
    ∷ serves 0
    ∷ delivers 0
    ∷ []

abbrev count_text : ℕ → String
count_text n = "sessions revoked"

abbrev all_sessions : List Session
all_sessions = here ∷ phone ∷ tablet ∷ []
