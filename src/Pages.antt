-- ===== src/Pages.antt =====
-- Pages that load what they show and whose actions each send one request and then load again: the shape of
-- apps/web/src/pages/SessionsPage.tsx, SeriesPage.tsx and SeriesDetailPage.tsx, whose modules give the
-- hooks. A page and the server that it talks to run here together. Errors are the texts that
-- `userFacingError` gives.
pub mod Current
pub mod Drain
pub mod Fresh
pub mod Idle
pub mod InFlight
pub mod Laws
pub mod Settling
use novel_platform.Common.{
  ℕ, String, Bool, true, false, Option, none, some, List, [], ◌∷◌, ◌++◌, get_elem?, erase_at, ◌≡◌,
}

pub data Outcome (A : Type 0) : Type 0 where
  ok : A → Outcome A
  refused : String → Outcome A

-- `Promise.all` of two requests, answered at one moment; of two errors the first is told.
unfoldable pub both : {A C : Type 0} → Outcome A → Outcome C → Outcome (A × C)
both (ok a) (ok c) = ok (a, c)
both (ok a) (refused m) = refused m
both (refused m) o = refused m

-- What a page shows of the server (V), its buttons and forms (A), its fields (E), its requests (R), its
-- state (P) and the flags that it sets while a request runs (F).
pub record Page (V A E R B P F : Type 0) : Type 0 where
  pub edit : E → P → P
  pub begin : A → P → Option (R × P)
  pub start_load : P → P
  pub loaded : V → P → P
  pub load_failed : String → P → P
  pub accepted : R → B → P → P
  pub failed : R → String → P → P
  pub ended : R → P → P
  pub leaves : R → Bool
  pub shown : P → Option V
  pub error : P → Option String
  pub is_loading : P → Bool
  pub busy : F → P → Bool
  pub holds : F → R → Bool

-- What the backend does: `read` answers a load, `apply` a request.
pub record Server (S V R B : Type 0) : Type 0 where
  pub read : S → Outcome V
  pub apply : R → S → Outcome (S × B)

-- What a handler awaits: a load, which after a request is that of its handler, or a request.
pub data Task (R : Type 0) : Type 0 where
  loads : Option R → Task R
  requests : R → Task R

-- An answer on its way to the page.
pub data Reply (V R B : Type 0) : Type 0 where
  shows : Option R → V → Reply V R B
  load_refused : Option R → String → Reply V R B
  accepts : R → B → Reply V R B
  refuses : R → String → Reply V R B

pub record World (V R B P S : Type 0) : Type 0 where
  pub page : P
  pub store : S
  pub left : Bool
  pub waiting : List (Task R)
  pub answers : List (Reply V R B)

-- A reader edits a field, acts or loads again; the server answers the request at an index; the request is
-- lost, or its answer is, after the server has seen to it; the page takes the answer at an index.
pub data Event (A E : Type 0) : Type 0 where
  edits : E → Event A E
  acts : A → Event A E
  loads_again : Event A E
  serves : ℕ → Event A E
  loses : ℕ → Bool → String → Event A E
  delivers : ℕ → Event A E

pub reply_to_load : {V R B : Type 0} → Option R → Outcome V → Reply V R B
reply_to_load o (ok v) = shows o v
reply_to_load o (refused m) = load_refused o m

-- The store after a request whose answer is lost.
pub stored : {S B : Type 0} → Outcome (S × B) → S → S
stored (ok (s', b)) s = s'
stored (refused m) s = s

module _ {V R B P S : Type 0} where
  -- `useEffect(() => { void load(); }, [load])`
  unfoldable pub opened : P → S → World V R B P S
  opened p s = record { page = p; store = s; left = false; waiting = loads none ∷ []; answers = [] }

  answer : Reply V R B → World V R B P S → World V R B P S
  answer x w = record w { answers = w.answers ++ x ∷ [] }

  applied : R → Outcome (S × B) → World V R B P S → World V R B P S
  applied r (ok (s, b)) w = answer (accepts r b) (record w { store = s })
  applied r (refused m) w = answer (refuses r m) w

  begun : Option (R × P) → World V R B P S → World V R B P S
  begun none w = w
  begun (some (r, p)) w = record w { page = p; waiting = w.waiting ++ requests r ∷ [] }

module _ {V R B P S : Type 0} (server : Server S V R B) where
  pub serve : Task R → World V R B P S → World V R B P S
  serve (loads o) w = answer (reply_to_load o (server.read w.store)) w
  serve (requests r) w = applied r (server.apply r w.store) w

  pub lose : Task R → Bool → String → World V R B P S → World V R B P S
  lose (loads o) b m w = answer (load_refused o m) w
  lose (requests r) false m w = answer (refuses r m) w
  lose (requests r) true m w =
      answer (refuses r m) (record w { store = stored (server.apply r w.store) w.store })

  served : Option (Task R) → ℕ → World V R B P S → World V R B P S
  served none i w = w
  served (some t) i w = serve t (record w { waiting = erase_at w.waiting i })

  lost : Option (Task R) → ℕ → Bool → String → World V R B P S → World V R B P S
  lost none i b m w = w
  lost (some t) i b m w = lose t b m (record w { waiting = erase_at w.waiting i })

module _ {V A E R B P F : Type 0} (hooks : Page V A E R B P F) where
  -- The rest of the handler that has awaited a load.
  pub end_load : Option R → P → P
  end_load none p = p
  end_load (some r) p = hooks.ended r p

module _ {V A E R B P F S : Type 0} (hooks : Page V A E R B P F) where
  go_on : Bool → R → B → World V R B P S → World V R B P S
  go_on true r b w = record w { page = hooks.accepted r b w.page; left = true }
  go_on false r b w = record w {
    page = hooks.start_load (hooks.accepted r b w.page);
    waiting = w.waiting ++ loads (some r) ∷ [];
  }

  take_reply : Reply V R B → World V R B P S → World V R B P S
  take_reply (shows o v) w = record w { page = end_load hooks o (hooks.loaded v w.page) }
  take_reply (load_refused o m) w = record w {
    page = end_load hooks o (hooks.load_failed m w.page);
  }
  take_reply (accepts r b) w = go_on (hooks.leaves r) r b w
  take_reply (refuses r m) w = record w { page = hooks.failed r m w.page }

  delivered : Option (Reply V R B) → ℕ → World V R B P S → World V R B P S
  delivered none i w = w
  delivered (some x) i w = take_reply x (record w { answers = erase_at w.answers i })

module _ {V A E R B P F S : Type 0} (hooks : Page V A E R B P F) (server : Server S V R B) where
  unfoldable pub happens : Event A E → World V R B P S → World V R B P S
  unfolding reply_to_load stored begun served serve applied lost lose delivered take_reply go_on
      end_load answer
  happens (edits e) w = record w { page = hooks.edit e w.page }
  happens (acts a) w = begun (hooks.begin a w.page) w
  happens loads_again w = record w {
    page = hooks.start_load w.page;
    waiting = w.waiting ++ loads none ∷ [];
  }
  happens (serves i) w = served server (get_elem? w.waiting i) i w
  happens (loses i b m) w = lost server (get_elem? w.waiting i) i b m w
  happens (delivers i) w = delivered hooks (get_elem? w.answers i) i w

  unfoldable pub happen_all : List (Event A E) → World V R B P S → World V R B P S
  happen_all [] w = w
  happen_all (e ∷ es) w = happen_all es (happens e w)
