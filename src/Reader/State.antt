-- ===== src/Reader/State.antt =====
-- The state of `ReaderPage` (apps/web/src/pages/ReaderPage.tsx) and the data that it exchanges with
-- the server. `F` is the type of JavaScript numbers that a progress is made of.
use novel_platform.Common.{ℕ, String, Bool, Option, List}

-- The arithmetic of `Math` and of `/`, `+`, `*` that the page uses. `floor_index x` is
-- `Math.max(0, Math.floor(x))` for a finite `x`.
pub record Arithmetic (F : Type 0) : Type 0 where
  pub of_nat : ℕ → F
  pub add : F → F → F
  pub mul : F → F → F
  pub div : F → F → F
  pub min : F → F → F
  pub max : F → F → F
  pub floor_index : F → ℕ

pub data ReadingStatus : Type 0 where
  not_started reading finished : ReadingStatus

module _ (F : Type 0) where
  -- `ReaderLocation`
  pub record Location : Type 0 where
    pub section_id : String
    pub block_id : Option String
    pub section_progress : F
    pub overall_progress : F

  pub record Progress : Type 0 where
    pub version : ℕ
    pub section_id : Option String
    pub block_id : Option String
    pub section_progress : F
    pub overall_progress : F
    pub edition_file_revision : Option ℕ
    pub status : ReadingStatus

pub record Section : Type 0 where
  pub id : String
  pub title : String

pub record Publication : Type 0 where
  pub file_revision : ℕ
  pub sections : List Section

-- `ReaderOpen`, by the members that are read.
pub record Opened (F : Type 0) : Type 0 where
  pub book_id : String
  pub edition_id : String
  pub publication : Publication
  pub progress : Progress F

-- `ConflictState`
pub record Conflict : Type 0 where
  pub current_version : ℕ
  pub message : String

-- The texts that `syncState` takes.
pub data SyncState : Type 0 where
  restored syncing synced conflicting failed : SyncState

-- What the caller of `persist` does once its promise is resolved.
pub data After (F : Type 0) : Type 0 where
  nothing : After F
  to_section : ℕ → Location F → After F
  to_edition : String → After F
  to_book : String → After F
  marked_finished : After F
  restarted : After F

-- One `task` of `persist`, with what its closure has captured.
pub record SaveTask (F : Type 0) : Type 0 where
  pub edition_id : String
  pub file_revision : ℕ
  pub keepalive : Bool
  pub status : Option ReadingStatus
  pub override_version : Option ℕ
  pub snapshot : Location F
  pub after : After F

-- The task that awaits the server's answer: `progress` is what `progressRef` held when it started.
pub record Running (F : Type 0) : Type 0 where
  pub task : SaveTask F
  pub progress : Progress F
  pub expected_version : ℕ

pub record Reader (F : Type 0) : Type 0 where
  pub edition_id : String
  pub opened : Option (Opened F)
  pub section : Option String
  pub section_index : ℕ
  pub is_opening : Bool
  pub error : Option String
  pub visual_progress : F
  pub sync_state : SyncState
  pub conflict : Option Conflict
  pub conflict_ref : Option Conflict
  pub progress_ref : Option (Progress F)
  pub location_ref : Option (Location F)
  pub restore_ref : Option (Location F)
  pub save_timer : Bool
  pub toc_open : Bool
  pub queue : List (SaveTask F)
  pub running : Option (Running F)
  pub navigated : Option String
