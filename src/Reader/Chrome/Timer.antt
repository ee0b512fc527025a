-- ===== src/Reader/Chrome/Timer.antt =====
-- When the bars of apps/web/src/pages/ReaderPage.tsx hide by themselves.
use novel_platform.Common.{
  Bool, true, false, none, some, List, [], ◌∷◌, ◌≡◌, arith, if◌then◌else◌, is_some,
}
use novel_platform.Reader.Chrome.{
  Chrome, mounted, is_covered, clear_chrome_timer, schedule_chrome_hide, timer_fires, reveal_chrome,
  effect, scrolled, set_toc_open, set_settings_open, set_conflict, set_ready,
  open_table_of_contents, Event, moves, scrolls, fires, opens_toc, closes_toc, opens_settings,
  closes_settings, conflicts, becomes_ready, happens, happen_all,
}

-- A timer runs only while nothing covers the text; and while nothing does, bars that show on a page that is
-- ready have a timer that will hide them.
pub record Timed (c : Chrome) : Type 0 where
  pub uncovered : c.timer ≡ true → is_covered c ≡ false
  pub hides : c.ready ≡ true → c.visible ≡ true → is_covered c ≡ false → c.timer ≡ true

schedule-Timed : (c : Chrome) → Timed (schedule_chrome_hide c)
unfolding schedule_chrome_hide clear_chrome_timer
schedule-Timed c = record { uncovered = ground arith; hides = ground arith }

effect-Timed : (c : Chrome) → Timed (effect c)
unfolding effect clear_chrome_timer schedule_chrome_hide
effect-Timed c = record { uncovered = ground arith; hides = ground arith }

if-Timed : (b : Bool) {c d : Chrome} → Timed c → Timed d → Timed (if b then c else d)
if-Timed true h k = h
if-Timed false h k = k

set_toc_open-Timed : (b : Bool) (c : Chrome) → Timed c → Timed (set_toc_open b c)
unfolding set_toc_open
set_toc_open-Timed true c h = if-Timed c.toc_open h (effect-Timed (record c { toc_open = true }))
set_toc_open-Timed false c h = if-Timed c.toc_open (effect-Timed (record c { toc_open = false })) h

happens-Timed : (e : Event) (c : Chrome) → Timed c → Timed (happens e c)
unfolding happens reveal_chrome scrolled timer_fires open_table_of_contents set_settings_open
    set_conflict set_ready clear_chrome_timer
happens-Timed moves c h = schedule-Timed (record c { visible = true })
happens-Timed scrolls c h = record { uncovered = ground arith; hides = ground arith }
happens-Timed fires c h =
    if-Timed c.timer (record { uncovered = ground arith; hides = ground arith }) h
happens-Timed (opens_toc narrow) c h =
    let shown = schedule-Timed (record c { visible = true }) in
    if-Timed narrow (set_toc_open-Timed true (reveal_chrome c) shown) shown
happens-Timed closes_toc c h = set_toc_open-Timed false c h
happens-Timed opens_settings c h =
    if-Timed c.settings_open h (effect-Timed (record c { settings_open = true }))
happens-Timed closes_settings c h =
    if-Timed c.settings_open (effect-Timed (record c { settings_open = false })) h
happens-Timed (conflicts (some n)) c h = effect-Timed (record c { conflict = some n })
happens-Timed (conflicts none) c h =
    if-Timed (is_some c.conflict) (effect-Timed (record c { conflict = none })) h
happens-Timed (becomes_ready true) c h =
    if-Timed c.ready h (effect-Timed (record c { ready = true }))
happens-Timed (becomes_ready false) c h =
    if-Timed c.ready (effect-Timed (record c { ready = false })) h

all-Timed : (es : List Event) (c : Chrome) → Timed c → Timed (happen_all es c)
unfolding happen_all
all-Timed [] c h = h
all-Timed (e ∷ es) c h = all-Timed es (happens e c) (happens-Timed e c h)

-- Whatever the reader does: no timer runs while a drawer or a conflict covers the text, and while none does,
-- bars that show on a page that is ready have a timer that will hide them.
pub happen_all-Timed : (es : List Event) → Timed (happen_all es mounted)
unfolding mounted
happen_all-Timed es =
    all-Timed es mounted (record { uncovered = ground arith; hides = ground arith })
