-- ===== src/Reader/Settings.antt =====
-- `changeSettings` of apps/web/src/pages/ReaderPage.tsx: a change of the reader's settings shows at once
-- and is sent when no other has followed for a while. `T` is the type of `ReaderSettings`.
pub mod Debounce
mod Tests
use Prim.Native.Nat.{zero, suc}
use novel_platform.Common.{
  ℕ, Bool, true, false, Option, none, some, List, [], ◌∷◌, ◌++◌, get_elem?, erase_at, if◌then◌else◌,
}

-- `timer` is what the closure of the timer has captured, and `patches` the requests that await an
-- answer; `sync_failed` says that `syncState` tells of a failure.
pub record Settings (T : Type 0) : Type 0 where
  pub settings : Option T
  pub timer : Option T
  pub patches : List T
  pub sync_failed : Bool

module _ {T : Type 0} where
  -- `loadReader` takes the settings of the answer.
  unfoldable pub settings_opened : T → Settings T → Settings T
  settings_opened t s = record s { settings = some t }

  change_from : Option T → (T → T) → Settings T → Settings T
  change_from none f s = s
  change_from (some t) f s = record s { settings = some (f t); timer = some (f t) }

  -- `f` puts the changed members over the others.
  unfoldable pub change_settings : (T → T) → Settings T → Settings T
  unfolding change_from
  change_settings f s = change_from s.settings f s

  send_from : Option T → Settings T → Settings T
  send_from none s = s
  send_from (some t) s = record s { timer = none; patches = s.patches ++ t ∷ [] }

  unfoldable pub timer_fires : Settings T → Settings T
  unfolding send_from
  timer_fires s = send_from s.timer s

  settle_patch : Option T → ℕ → Option T → Settings T → Settings T
  settle_patch none i answer s = s
  settle_patch (some t) i (some stored) s = record s {
    settings = some stored;
    patches = erase_at s.patches i;
  }
  settle_patch (some t) i none s = record s { sync_failed = true; patches = erase_at s.patches i }

  -- The request at `i` of those that await an answer is answered with the stored settings, or fails.
  unfoldable pub patch_answers : ℕ → Option T → Settings T → Settings T
  unfolding settle_patch
  patch_answers i answer s = settle_patch (get_elem? s.patches i) i answer s
