-- ===== src/Reader/Chrome.antt =====
-- The bars of apps/web/src/pages/ReaderPage.tsx, which hide by themselves (`chromeVisible` and its timer). The
-- effect runs again when the callback that it depends on is another, which is so when a drawer opens or closes
-- or the conflict changes, and when the page becomes ready or ceases to be.
pub mod Timer
mod Tests
use novel_platform.Common.{
  ℕ, Bool, true, false, ◌||◌, ◌&&◌, Option, none, some, is_some, List, [], ◌∷◌, if◌then◌else◌,
}

-- `timer` says that `chromeTimerRef` holds a timer; a conflict is known by its number.
pub record Chrome : Type 0 where
  pub visible : Bool
  pub timer : Bool
  pub toc_open : Bool
  pub settings_open : Bool
  pub conflict : Option ℕ
  pub ready : Bool

unfoldable pub mounted : Chrome
mounted = record {
  visible = true;
  timer = false;
  toc_open = false;
  settings_open = false;
  conflict = none;
  ready = false;
}

-- `tocOpen || settingsOpen || conflict`
abbrev pub is_covered : Chrome → Bool
is_covered c = c.toc_open || c.settings_open || is_some c.conflict

clear_chrome_timer : Chrome → Chrome
clear_chrome_timer c = record c { timer = false }

schedule_chrome_hide : Chrome → Chrome
unfolding clear_chrome_timer
schedule_chrome_hide c = if is_covered c then clear_chrome_timer c else record c { timer = true }

-- The timer fires.
unfoldable pub timer_fires : Chrome → Chrome
timer_fires c = if c.timer then record c { visible = false; timer = false } else c

unfoldable pub reveal_chrome : Chrome → Chrome
unfolding schedule_chrome_hide
reveal_chrome c = schedule_chrome_hide (record c { visible = true })

-- The effect, after its cleanup has run.
effect : Chrome → Chrome
unfolding clear_chrome_timer schedule_chrome_hide
effect c =
    if c.ready then schedule_chrome_hide (record c { visible = true }) else clear_chrome_timer c

-- The beginning of `handleScroll`.
unfoldable pub scrolled : Chrome → Chrome
unfolding clear_chrome_timer
scrolled c = record (clear_chrome_timer c) { visible = false }

-- The setters; the effect runs where the value is another.
unfoldable pub set_toc_open : Bool → Chrome → Chrome
unfolding effect
set_toc_open true c = if c.toc_open then c else effect (record c { toc_open = true })
set_toc_open false c = if c.toc_open then effect (record c { toc_open = false }) else c

unfoldable pub set_settings_open : Bool → Chrome → Chrome
unfolding effect
set_settings_open true c = if c.settings_open then c else effect (record c { settings_open = true })
set_settings_open false c =
    if c.settings_open then effect (record c { settings_open = false }) else c

-- A conflict that is set is a new object.
unfoldable pub set_conflict : Option ℕ → Chrome → Chrome
unfolding effect
set_conflict (some n) c = effect (record c { conflict = some n })
set_conflict none c = if is_some c.conflict then effect (record c { conflict = none }) else c

unfoldable pub set_ready : Bool → Chrome → Chrome
unfolding effect
set_ready true c = if c.ready then c else effect (record c { ready = true })
set_ready false c = if c.ready then effect (record c { ready = false }) else c

-- `openTableOfContents`, in a narrow window and in a wide one.
unfoldable pub open_table_of_contents : Bool → Chrome → Chrome
unfolding reveal_chrome set_toc_open
open_table_of_contents narrow c =
    if narrow then set_toc_open true (reveal_chrome c) else reveal_chrome c

pub data Event : Type 0 where
  moves scrolls fires : Event
  opens_toc : Bool → Event
  closes_toc opens_settings closes_settings : Event
  conflicts : Option ℕ → Event
  becomes_ready : Bool → Event

unfoldable pub happens : Event → Chrome → Chrome
unfolding reveal_chrome scrolled timer_fires open_table_of_contents set_toc_open set_settings_open
    set_conflict set_ready
happens moves c = reveal_chrome c
happens scrolls c = scrolled c
happens fires c = timer_fires c
happens (opens_toc narrow) c = open_table_of_contents narrow c
happens closes_toc c = set_toc_open false c
happens opens_settings c = set_settings_open true c
happens closes_settings c = set_settings_open false c
happens (conflicts o) c = set_conflict o c
happens (becomes_ready b) c = set_ready b c

unfoldable pub happen_all : List Event → Chrome → Chrome
happen_all [] c = c
happen_all (e ∷ es) c = happen_all es (happens e c)
