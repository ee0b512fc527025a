-- ===== src/Account/Sessions/Kept.antt =====
-- What apps/web/src/pages/SessionsPage.tsx shows once its requests have been answered.
use novel_platform.Common.{
  ℕ, String, Bool, true, false, Option, none, some, List, [], ◌≡◌, refl, ◌⊎◌, is_some,
  if◌then◌else◌, sym, ◌∙◌, inl, inr, arith,
}
use novel_platform.Pages.{Server, Event, opened, happen_all}
use novel_platform.Pages.Idle.{happen_all_idle}
use novel_platform.Pages.Laws.{FlagLaws, none_of}
use novel_platform.Account.Sessions.{
  Session, SessionsPage, Request, revokes, revokes_others, Answer, Flag, one, others, mounted,
  sessions_page, start_load, loaded, load_failed, begin, ended, failed, accepted, busy, holds,
}

begin_busy :
    (f : Flag) (r : Request) (p : SessionsPage)
    → busy f (begin r p) ≡ true
    → (busy f p ≡ true) ⊎ (holds f r ≡ true)
unfolding busy begin holds
begin_busy one (revokes s) p h = inr refl
begin_busy one revokes_others p h = inl h
begin_busy others (revokes s) p h = inl h
begin_busy others revokes_others p h = inr refl

ended_busy :
    (f : Flag) (r : Request) (p : SessionsPage)
    → busy f (ended r p) ≡ true
    → (busy f p ≡ true) × (holds f r ≡ false)
unfolding busy ended holds
ended_busy one (revokes s) p h = absurd (ground arith)
ended_busy one revokes_others p h = (h, refl)
ended_busy others (revokes s) p h = (h, refl)
ended_busy others revokes_others p h = absurd (ground arith)

error_busy :
    (f : Flag) (o : Option String) (p : SessionsPage) → busy f (record p { error = o }) ≡ busy f p
unfolding busy
error_busy one o p = refl
error_busy others o p = refl

begin_is_loading : (r : Request) (p : SessionsPage) → (begin r p).is_loading ≡ p.is_loading
unfolding begin
begin_is_loading (revokes s) p = refl
begin_is_loading revokes_others p = refl

ended_is_loading : (r : Request) (p : SessionsPage) → (ended r p).is_loading ≡ p.is_loading
unfolding ended
ended_is_loading (revokes s) p = refl
ended_is_loading revokes_others p = refl

if_same :
    (b : Bool) {p q : SessionsPage} (f : SessionsPage → Bool)
    → f q ≡ f p
    → f (if b then p else q) ≡ f p
if_same true f e = refl
if_same false f e = e

module _ (revoked : ℕ → String) where
  accepted_busy :
      (f : Flag) (r : Request) (a : Answer) (p : SessionsPage)
      → busy f (accepted revoked r a p) ≡ busy f p
  unfolding accepted busy
  accepted_busy one (revokes s) a p = if_same s.is_current (λ q. is_some q.busy_id) refl
  accepted_busy one revokes_others none p = refl
  accepted_busy one revokes_others (some n) p = refl
  accepted_busy others (revokes s) a p = if_same s.is_current (λ q. q.is_revoking_others) refl
  accepted_busy others revokes_others none p = refl
  accepted_busy others revokes_others (some n) p = refl

  flag_laws : FlagLaws (sessions_page revoked)
  unfolding sessions_page start_load loaded load_failed begin failed ended accepted
  flag_laws = record {
    is_loading-edit = λ e p. refl;
    is_loading-begin = begin_is_loading;
    is_loading-loaded = λ v p. refl;
    is_loading-load_failed = λ m p. refl;
    is_loading-failed = λ r m p. ended_is_loading r (record p { error = some m });
    is_loading-ended = ended_is_loading;
    busy-edit = λ f e p. refl;
    busy-begin = begin_busy;
    busy-start_load = elim [ one ↦ λ p. refl | others ↦ λ p. refl ];
    busy-loaded = elim [ one ↦ λ v p. refl | others ↦ λ v p. refl ];
    busy-load_failed = elim [ one ↦ λ m p. refl | others ↦ λ m p. refl ];
    busy-accepted = accepted_busy;
    busy-failed = λ f r m p h.
        let c = ended_busy f r (record p { error = some m }) h in
        (sym (error_busy f (some m) p) ∙ c.0, c.1);
    busy-ended = ended_busy;
  }

  -- Whichever requests of the page overlap, are refused or are lost, and in whichever order the answers
  -- arrive: once nothing is awaited, no button and no list shows that it is being worked on, unless the
  -- page has been left.
  sessions_page_idle :
      {S : Type 0} (server : Server S (List Session) Request Answer) (s : S)
      (es : List (Event Request ⊥))
      → let w = happen_all (sessions_page revoked) server es (opened mounted s) in
        w.left ≡ false
        → w.waiting ≡ []
        → w.answers ≡ []
        → (w.page.is_loading ≡ false)
          × (w.page.busy_id ≡ none)
          × (w.page.is_revoking_others ≡ false)
  unfolding sessions_page mounted busy
  sessions_page_idle server s es l a b =
      let c =
        happen_all_idle (sessions_page revoked) server flag_laws mounted s es
          (elim [ one ↦ refl | others ↦ refl ]) l a b in
      (c.0, none_of (c.1 one), c.1 others)
