-- ===== src/Admin/ReaderList.antt =====
-- The list of `AdminReadersPage` (apps/web/src/pages/AdminReadersPage.tsx): what it counts, what it
-- shows, and which reader is selected.
pub mod Selection
use novel_platform.Common.Text.{str_eq, ◌⧺◌}
use novel_platform.Common.{
  ℕ, String, Bool, true, false, not, ◌&&◌, Option, none, some, List, [], ◌∷◌, length, any, ◌==◌,
  if◌then◌else◌, or_else,
}
use novel_platform.Admin.ReaderDetail.{ReaderIdentity, Credential}

-- `trim`, `toLocaleLowerCase("zh-CN")` and `includes`.
pub record Texts : Type 0 where
  pub trim : String → String
  pub lower : String → String
  pub includes : String → String → Bool

-- `ReaderFilter`
pub data ReaderFilter : Type 0 where
  all active restricted : ReaderFilter

pub record ReaderPage : Type 0 where
  pub readers : List ReaderIdentity
  pub selected_reader_id : Option String
  pub query : String
  pub reader_filter : ReaderFilter

-- `reader.credential?.effective_status`
abbrev pub effective_status : Option Credential → Option String
effective_status none = none
effective_status (some c) = some c.effective_status

unfoldable pub is_active_reader : ReaderIdentity → Bool
is_active_reader r =
    str_eq r.status "active"
    && elim (effective_status r.credential) [ none ↦ false | some s ↦ str_eq s "active" ]

unfoldable pub reader_status : ReaderIdentity → String
reader_status r =
    if not (str_eq r.status "active")
    then r.status
    else or_else (effective_status r.credential) "missing"

-- `filter`
unfoldable pub filter {ℓ} : {A : Type ℓ} → (A → Bool) → List A → List A
filter p [] = []
filter p (x ∷ xs) = let rest = filter p xs in if p x then x ∷ rest else rest

unfoldable pub counts_active : List ReaderIdentity → ℕ
counts_active readers = length (filter is_active_reader readers)

unfoldable pub counts_restricted : List ReaderIdentity → ℕ
counts_restricted readers = length (filter (λ r. not (is_active_reader r)) readers)

abbrev pub hint_of : Option Credential → String
hint_of none = ""
hint_of (some c) = c.hint

-- `[...].join(" ").toLocaleLowerCase("zh-CN")`
abbrev pub searchable : Texts → ReaderIdentity → String
searchable texts r =
    texts.lower (r.display_name ⧺ " " ⧺ or_else r.admin_note "" ⧺ " " ⧺ hint_of r.credential)

abbrev pub in_filter : ReaderFilter → Bool → Bool
in_filter all is_active = true
in_filter active is_active = is_active
in_filter restricted is_active = not is_active

unfoldable pub keeps : Texts → String → ReaderFilter → ReaderIdentity → Bool
unfolding is_active_reader
keeps texts normalized reader_filter r =
    if in_filter reader_filter (is_active_reader r)
    then if str_eq normalized "" then true else texts.includes (searchable texts r) normalized
    else false

unfoldable pub filtered_readers : Texts → ReaderPage → List ReaderIdentity
unfolding keeps filter
filtered_readers texts p =
    filter (keeps texts (texts.lower (texts.trim p.query)) p.reader_filter) p.readers

-- `reader.id === selectedReaderId`
abbrev pub is_selected : Option String → ReaderIdentity → Bool
is_selected none r = false
is_selected (some id) r = str_eq r.id id

abbrev pub first_unless : Bool → List ReaderIdentity → Option String → Option String
first_unless true rs selected = selected
first_unless false [] selected = selected
first_unless false (r ∷ rs) selected = some r.id

-- The effect on the lists: without a reader none is selected, and a reader that is not shown gives way
-- to the first that is.
unfoldable pub select_visible : Texts → ReaderPage → ReaderPage
unfolding filtered_readers
select_visible texts p =
    if length p.readers == 0
    then record p { selected_reader_id = none }
    else let shown = filtered_readers texts p in
      record p {
        selected_reader_id =
            first_unless (any (is_selected p.selected_reader_id) shown) shown p.selected_reader_id;
      }

-- `find`
unfoldable pub find_selected : Option String → List ReaderIdentity → Option ReaderIdentity
find_selected id [] = none
find_selected id (r ∷ rs) =
    let rest = find_selected id rs in if is_selected id r then some r else rest

unfoldable pub selected_reader : Texts → ReaderPage → Option ReaderIdentity
unfolding find_selected filtered_readers
selected_reader texts p = find_selected p.selected_reader_id (filtered_readers texts p)
