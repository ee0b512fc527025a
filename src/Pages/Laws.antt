-- ===== src/Pages/Laws.antt =====
-- What the hooks of a page of Pages keep to.
use novel_platform.Common.{true, false, String, Option, none, some, is_some, ◌≡◌, refl, arith, ◌⊎◌}
use novel_platform.Pages.{Page, end_load}

module _ {V A E R B P F : Type 0} where
  -- What the page shows is what was loaded last, and what fails is told.
  pub record ShowsLaws (hooks : Page V A E R B P F) : Type 0 where
    pub shown-edit : (e : E) (p : P) → hooks.shown (hooks.edit e p) ≡ hooks.shown p
    pub error-edit : (e : E) (p : P) → hooks.error (hooks.edit e p) ≡ hooks.error p
    pub shown-loaded : (v : V) (p : P) → hooks.shown (hooks.loaded v p) ≡ some v
    pub error-load_failed :
        (m : String) (p : P) → is_some (hooks.error (hooks.load_failed m p)) ≡ true
    pub error-failed :
        (r : R) (m : String) (p : P) → is_some (hooks.error (hooks.failed r m p)) ≡ true
    pub shown-ended : (r : R) (p : P) → hooks.shown (hooks.ended r p) ≡ hooks.shown p
    pub error-ended : (r : R) (p : P) → hooks.error (hooks.ended r p) ≡ hooks.error p

pub none_of : {X : Type 0} {o : Option X} → is_some o ≡ false → o ≡ none
none_of {o = none} e = refl
none_of {o = some x} e = absurd (ground arith)

-- The request and the page, where there is one.
abbrev pub Given : {R P : Type 0} → (R → P → Type 0) → Option (R × P) → Type 0
Given Q none = Unit
Given Q (some (r, p)) = Q r p

module _ {V A E R B P F : Type 0} where
  -- A load ends with its flag, and the end of a request takes back the flags that it has set.
  pub record FlagLaws (hooks : Page V A E R B P F) : Type 0 where
    pub is_loading-edit : (e : E) (p : P) → hooks.is_loading (hooks.edit e p) ≡ hooks.is_loading p
    pub is_loading-begin :
        (a : A) (p : P) → Given (λ r q. hooks.is_loading q ≡ hooks.is_loading p) (hooks.begin a p)
    pub is_loading-loaded : (v : V) (p : P) → hooks.is_loading (hooks.loaded v p) ≡ false
    pub is_loading-load_failed :
        (m : String) (p : P) → hooks.is_loading (hooks.load_failed m p) ≡ false
    pub is_loading-failed :
        (r : R) (m : String) (p : P) → hooks.is_loading (hooks.failed r m p) ≡ hooks.is_loading p
    pub is_loading-ended : (r : R) (p : P) → hooks.is_loading (hooks.ended r p) ≡ hooks.is_loading p
    pub busy-edit : (f : F) (e : E) (p : P) → hooks.busy f (hooks.edit e p) ≡ hooks.busy f p
    pub busy-begin :
        (f : F) (a : A) (p : P)
        → Given
            (λ r q. hooks.busy f q ≡ true → (hooks.busy f p ≡ true) ⊎ (hooks.holds f r ≡ true))
            (hooks.begin a p)
    pub busy-start_load : (f : F) (p : P) → hooks.busy f (hooks.start_load p) ≡ hooks.busy f p
    pub busy-loaded : (f : F) (v : V) (p : P) → hooks.busy f (hooks.loaded v p) ≡ hooks.busy f p
    pub busy-load_failed :
        (f : F) (m : String) (p : P) → hooks.busy f (hooks.load_failed m p) ≡ hooks.busy f p
    pub busy-accepted :
        (f : F) (r : R) (b : B) (p : P) → hooks.busy f (hooks.accepted r b p) ≡ hooks.busy f p
    pub busy-failed :
        (f : F) (r : R) (m : String) (p : P)
        → hooks.busy f (hooks.failed r m p) ≡ true
        → (hooks.busy f p ≡ true) × (hooks.holds f r ≡ false)
    pub busy-ended :
        (f : F) (r : R) (p : P)
        → hooks.busy f (hooks.ended r p) ≡ true
        → (hooks.busy f p ≡ true) × (hooks.holds f r ≡ false)

module _ {V A E R B P F : Type 0} (hooks : Page V A E R B P F) (laws : ShowsLaws hooks) where
  pub shown-end_load : (o : Option R) (p : P) → hooks.shown (end_load hooks o p) ≡ hooks.shown p
  unfolding end_load
  shown-end_load none p = refl
  shown-end_load (some r) p = laws.shown-ended r p

  pub error-end_load : (o : Option R) (p : P) → hooks.error (end_load hooks o p) ≡ hooks.error p
  unfolding end_load
  error-end_load none p = refl
  error-end_load (some r) p = laws.error-ended r p
