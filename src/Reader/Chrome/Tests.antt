-- ===== src/Reader/Chrome/Tests.antt =====
-- The bars of apps/web/src/pages/ReaderPage.tsx at concrete events.
use novel_platform.Common.{true, false, List, [], ◌∷◌, ◌≡◌, refl}
use novel_platform.Reader.Chrome.{
  mounted, Event, moves, fires, opens_toc, closes_toc, becomes_ready, happens, happen_all,
}
use novel_platform.Reader.Chrome.Timer.{Timed, happen_all-Timed}

-- The contents are opened in a narrow window, after a timer was set.
abbrev events : List Event
events = becomes_ready true ∷ moves ∷ opens_toc true ∷ fires ∷ []

happen_all-Timed_example : Timed (happen_all events mounted)
happen_all-Timed_example = happen_all-Timed events

stays : (happen_all events mounted).visible ≡ true
unfolding happen_all happens mounted
stays = refl

hides_then : (happen_all (closes_toc ∷ fires ∷ []) (happen_all events mounted)).visible ≡ false
unfolding happen_all happens mounted
hides_then = refl
