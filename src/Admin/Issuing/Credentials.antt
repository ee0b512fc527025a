-- ===== src/Admin/Issuing/Credentials.antt =====
-- How long apps/web/src/pages/AdminReadersPage.tsx shows a credential.
use novel_platform.Common.{ℕ, String, Bool, true, false, some, List, [], ◌∷◌, ◌≡◌, refl, arith, ◌∙◌}
use novel_platform.Admin.ReaderDetail.{Zone, ReaderIdentity}
use novel_platform.Admin.ReaderList.{Texts, ReaderFilter}
use novel_platform.Admin.Issuing.{
  Issued, Form, Issuing, settle, readers_listed, load_failed, start_load, show_issued,
  reset_create_form, create, created, create_failed, create_listed, create_unlisted,
  copy_credential, select_reader, close_mobile_detail, open_create, cancel_create, put_away,
}

-- What the administrator, the server and the clipboard do to the page.
pub data Event : Type 0 where
  lists : List ReaderIdentity → Event
  list_fails : String → Event
  loads opens_form closes_detail puts_away : Event
  fills : Form → Event
  searches : String → ReaderFilter → Event
  cancels : ℕ → Event
  asks : Event
  is_created : ℕ → Issued → Event
  is_refused : String → Event
  lists_created : List ReaderIdentity → Event
  lists_created_not : String → Event
  reissues : Issued → Event
  copies : Bool → Event
  selects : String → Event

-- The event puts the credential away or shows another.
abbrev pub replaces : Event → Bool
replaces puts_away = true
replaces (is_created now new) = true
replaces (reissues new) = true
replaces e = false

abbrev pub NoneReplaces : List Event → Type 0
NoneReplaces [] = Unit
NoneReplaces (e ∷ es) = (replaces e ≡ false) × NoneReplaces es

module _ (texts : Texts) (z : Zone) where
  unfoldable pub happens : Event → Issuing → Issuing
  unfolding settle readers_listed load_failed start_load show_issued create created create_failed
      create_listed create_unlisted copy_credential select_reader close_mobile_detail open_create
      cancel_create put_away reset_create_form
  happens (lists rows) p = readers_listed texts rows p
  happens (list_fails message) p = load_failed message p
  happens loads p = start_load p
  happens opens_form p = open_create p
  happens closes_detail p = close_mobile_detail p
  happens puts_away p = put_away p
  happens (fills form) p = record p { form = form }
  happens (searches query reader_filter) p =
      settle texts
        (record p { list = record p.list { query = query; reader_filter = reader_filter } })
  happens (cancels now) p = cancel_create z now p
  happens asks p = create texts z p
  happens (is_created now new) p = created texts z now new p
  happens (is_refused message) p = create_failed message p
  happens (lists_created rows) p = create_listed texts rows p
  happens (lists_created_not message) p = create_unlisted message p
  happens (reissues new) p = show_issued new p
  happens (copies done) p = copy_credential done p
  happens (selects id) p = select_reader texts id p

  unfoldable pub happen_all : List Event → Issuing → Issuing
  happen_all [] p = p
  happen_all (e ∷ es) p = happen_all es (happens e p)

  settle-issued : (p : Issuing) → (settle texts p).issued ≡ p.issued
  unfolding settle
  settle-issued p = ground arith

  happens-issued : (e : Event) (p : Issuing) → replaces e ≡ false → (happens e p).issued ≡ p.issued
  unfolding happens
  happens-issued e p h = ground arith

  all-issued :
      (es : List Event) (p : Issuing) → NoneReplaces es → (happen_all es p).issued ≡ p.issued
  unfolding happen_all
  all-issued [] p h = refl
  all-issued (e ∷ es) p (h, hs) = all-issued es (happens e p) hs ∙ happens-issued e p h

  created-shown :
      (now : ℕ) (new : Issued) (p : Issuing) → (created texts z now new p).issued ≡ some new
  unfolding created settle start_load show_issued reset_create_form
  created-shown now new p = ground arith

  -- A credential that is shown for a created reader stays on display, through answers, errors, other
  -- selections and copies, until it is put away or another is issued.
  pub created-issued :
      (now : ℕ) (new : Issued) (es : List Event) (p : Issuing)
      → NoneReplaces es
      → (happen_all es (happens (is_created now new) p)).issued ≡ some new
  unfolding happens
  created-issued now new es p h =
      all-issued es (created texts z now new p) h ∙ created-shown now new p
