-- ===== src/Account/Devices/Idle.antt =====
-- When apps/web/src/pages/DevicesPage.tsx shows that it loads, or that a device is busy.
use Prim.Native.Nat.{zero, suc}
use novel_platform.Common.{
  any-more, any-last, or_right, ℕ, String, Bool, true, false, Option, none, some, List, [], ◌∷◌,
  any, is_some, get_elem?, ◌≡◌, refl, arith, if◌then◌else◌, Bool-cases, inl, inr,
}
use novel_platform.Account.Devices.{
  Device, Task, loads, renames, revokes, signs_out, reloads, Answer, done, listed, failed,
  DevicesPage, mounted, replace_at, start_load, refresh, edit_name, begin, rename, revoke,
  finally_idle, reload, load_answered, answered, fits, answer_of, answers,
}

abbrev pub is_load : Task → Bool
is_load loads = true
is_load reloads = true
is_load t = false

-- The task is that of a handler that has set `busyId`.
abbrev pub is_handler : Task → Bool
is_handler loads = false
is_handler t = true

get_elem?-replace_at :
    (ts : List Task) (i : ℕ) (t t' : Task)
    → get_elem? ts i ≡ some t
    → get_elem? (replace_at ts i (some t')) i ≡ some t'
unfolding replace_at
get_elem?-replace_at [] i t t' e = absurd (ground arith)
get_elem?-replace_at (x ∷ ts) zero t t' e = refl
get_elem?-replace_at (x ∷ ts) (suc i) t t' e = get_elem?-replace_at ts i t t' e

any-put :
    (f : Task → Bool) (ts : List Task) (i : ℕ) (t t' : Task)
    → get_elem? ts i ≡ some t
    → f t' ≡ true
    → any f (replace_at ts i (some t')) ≡ true
unfolding replace_at
any-put f [] i t t' e h = absurd (ground arith)
any-put f (x ∷ ts) zero t t' e h = ground (arith, h)
any-put f (x ∷ ts) (suc i) t t' e h = ground (arith, any-put f ts i t t' e h)

any-kept :
    (f : Task → Bool) (ts : List Task) (i : ℕ) (t : Task) (o : Option Task)
    → get_elem? ts i ≡ some t
    → f t ≡ false
    → any f ts ≡ true
    → any f (replace_at ts i o) ≡ true
unfolding replace_at
any-kept f [] i t o e h k = k
any-kept f (x ∷ ts) zero t none e h k = ground arith
any-kept f (x ∷ ts) zero t (some t') e h k = ground arith
any-kept f (x ∷ ts) (suc i) t o e h k = or_right (f x) (any f ts) _ (any-kept f ts i t o e h) k

-- What shows as loading or as busy is awaited by some handler.
pub record Awaited (p : DevicesPage) : Type 0 where
  pub loading : p.is_loading ≡ true → any is_load p.tasks ≡ true
  pub busy : is_some p.busy_id ≡ true → any is_handler p.tasks ≡ true

ended :
    (t : Task) (i : ℕ) (o : Option String) (p : DevicesPage)
    → get_elem? p.tasks i ≡ some t
    → is_load t ≡ false
    → Awaited p
    → Awaited (finally_idle i (record p { error = o }))
unfolding finally_idle
ended t i o p e h w = record {
  loading = λ b. any-kept is_load p.tasks i t none e h (w.loading b);
  busy = λ b. absurd (ground arith);
}

reloading :
    (t : Task) (i : ℕ) (message : String) (p : DevicesPage)
    → get_elem? p.tasks i ≡ some t
    → Awaited (reload i message p)
unfolding reload start_load
reloading t i message p e = record {
  loading = λ b. any-put is_load p.tasks i t reloads e refl;
  busy = λ b. any-put is_handler p.tasks i t reloads e refl;
}

signing_out :
    (d : Device) (i : ℕ) (p : DevicesPage)
    → get_elem? p.tasks i ≡ some (revokes d)
    → Awaited p
    → Awaited (record p { tasks = replace_at p.tasks i (some signs_out) })
signing_out d i p e w = record {
  loading = λ b. any-kept is_load p.tasks i (revokes d) (some signs_out) e refl (w.loading b);
  busy = λ b. any-put is_handler p.tasks i (revokes d) signs_out e refl;
}

if-Awaited : (b : Bool) {x y : DevicesPage} → Awaited x → Awaited y → Awaited (if b then x else y)
if-Awaited true h k = h
if-Awaited false h k = k

answered-Awaited :
    (t : Task) (a : Answer) (i : ℕ) (p : DevicesPage)
    → get_elem? p.tasks i ≡ some t
    → fits t a ≡ true
    → Awaited p
    → Awaited (answered t a i p)
unfolding answered load_answered reload start_load finally_idle
answered-Awaited loads done i p e h w = absurd (ground arith)
answered-Awaited loads (listed rows) i p e h w = record {
  loading = λ b. absurd (ground arith);
  busy = λ b. any-kept is_handler p.tasks i loads none e refl (w.busy b);
}
answered-Awaited loads (failed m) i p e h w = record {
  loading = λ b. absurd (ground arith);
  busy = λ b. any-kept is_handler p.tasks i loads none e refl (w.busy b);
}
answered-Awaited reloads done i p e h w = absurd (ground arith)
answered-Awaited reloads (listed rows) i p e h w = record {
  loading = λ b. absurd (ground arith);
  busy = λ b. absurd (ground arith);
}
answered-Awaited reloads (failed m) i p e h w = record {
  loading = λ b. absurd (ground arith);
  busy = λ b. absurd (ground arith);
}
answered-Awaited (renames d) done i p e h w = reloading (renames d) i _ p e
answered-Awaited (renames d) (listed rows) i p e h w = absurd (ground arith)
answered-Awaited (renames d) (failed m) i p e h w = ended (renames d) i (some m) p e refl w
answered-Awaited (revokes d) done i p e h w =
    if-Awaited d.is_current (signing_out d i p e w) (reloading (revokes d) i _ p e)
answered-Awaited (revokes d) (listed rows) i p e h w = absurd (ground arith)
answered-Awaited (revokes d) (failed m) i p e h w = ended (revokes d) i (some m) p e refl w
answered-Awaited signs_out done i p e h w = ended signs_out i p.error p e refl w
answered-Awaited signs_out (listed rows) i p e h w = absurd (ground arith)
answered-Awaited signs_out (failed m) i p e h w = ended signs_out i (some m) p e refl w

answer_of-Awaited :
    (o : Option Task) (a : Answer) (i : ℕ) (p : DevicesPage)
    → get_elem? p.tasks i ≡ o
    → Awaited p
    → Awaited (answer_of o a i p)
unfolding answer_of
answer_of-Awaited none a i p e w = w
answer_of-Awaited (some t) a i p e w = elim (Bool-cases (fits t a)) [
  | inl fit ↦ rw fit (answered-Awaited t a i p e fit w)
  | inr unfit ↦ rw unfit w
]

-- What a reader or the server does to the page.
pub data Event : Type 0 where
  refreshes : Event
  edits : Device → String → Event
  asks_rename asks_revoke : Device → Event
  request_ends : ℕ → Answer → Event

unfoldable pub happens : Event → DevicesPage → DevicesPage
unfolding refresh edit_name rename revoke answers
happens refreshes p = refresh p
happens (edits d text) p = edit_name d text p
happens (asks_rename d) p = rename d p
happens (asks_revoke d) p = revoke d p
happens (request_ends i a) p = answers i a p

unfoldable pub happen_all : List Event → DevicesPage → DevicesPage
happen_all [] p = p
happen_all (e ∷ es) p = happen_all es (happens e p)

begin-Awaited :
    (d : Device) (t : Task) (p : DevicesPage)
    → is_handler t ≡ true
    → Awaited p
    → Awaited (begin d t p)
unfolding begin
begin-Awaited d t p h w = record {
  loading = λ b. any-more is_load p.tasks t (w.loading b);
  busy = λ b. any-last is_handler p.tasks t h;
}

happens-Awaited : (e : Event) (p : DevicesPage) → Awaited p → Awaited (happens e p)
unfolding happens start_load
happens-Awaited refreshes p w = record {
  loading = λ b. any-last is_load p.tasks loads refl;
  busy = λ b. any-more is_handler p.tasks loads (w.busy b);
}
happens-Awaited (edits d text) p w = record { loading = w.loading; busy = w.busy }
happens-Awaited (asks_rename d) p w = begin-Awaited d (renames d) p refl w
happens-Awaited (asks_revoke d) p w = begin-Awaited d (revokes d) p refl w
happens-Awaited (request_ends i a) p w = answer_of-Awaited (get_elem? p.tasks i) a i p refl w

all-Awaited : (es : List Event) (p : DevicesPage) → Awaited p → Awaited (happen_all es p)
unfolding happen_all
all-Awaited [] p w = w
all-Awaited (e ∷ es) p w = all-Awaited es (happens e p) (happens-Awaited e p w)

-- However its handlers overlap, the page shows that it loads only while a load is awaited, and that a
-- device is busy only while a handler for some device runs.
pub happen_all-Awaited : (es : List Event) → Awaited (happen_all es mounted)
unfolding mounted
happen_all-Awaited es =
    all-Awaited es mounted (record { loading = λ b. refl; busy = λ b. absurd (ground arith) })
