-- ===== src/Shared/ProtectedImage.antt =====
-- `ProtectedImage` (apps/web/src/shared/ProtectedImage.tsx): the effect that fetches the file of `path`
-- and shows it under an object URL, which it has to revoke. The object URLs and the runs of the effect
-- are numbered in the order in which they are made, as `URL.createObjectURL` repeats none.
pub mod Urls
use Prim.Native.Nat.{suc}
use novel_platform.Common.{
  ℕ, String, Bool, true, false, Option, none, some, List, [], ◌∷◌, if◌then◌else◌, ◌==◌,
}

-- A run of the effect that is not cleaned up: `objectUrl`, and whether its request is unanswered.
pub record Run : Type 0 where
  pub id : ℕ
  pub awaiting : Bool
  pub object_url : Option ℕ

-- `live` lists the object URLs that are created and not revoked.
pub record Image : Type 0 where
  pub mounted : Bool
  pub source : Option ℕ
  pub run : Option Run
  pub live : List ℕ
  pub fresh : ℕ

pub data Event : Type 0 where
  path_changes : Option String → Event
  file_comes : ℕ → Event
  file_fails : ℕ → Event
  unmounts : Event

unfoldable pub revoke : ℕ → List ℕ → List ℕ
revoke u [] = []
revoke u (v ∷ vs) = let rest = revoke u vs in if v == u then rest else v ∷ rest

abbrev pub url_of : Option Run → Option ℕ
url_of none = none
url_of (some run) = run.object_url

revoke_some : Option ℕ → List ℕ → List ℕ
revoke_some none vs = vs
revoke_some (some u) vs = revoke u vs

-- The function that the effect returns.
unfoldable pub clean_up : Image → Image
unfolding revoke_some
clean_up x = record x { run = none; live = revoke_some (url_of x.run) x.live }

-- The body of the effect; `path` is `null`, `undefined` or empty, or a text.
unfoldable pub run_effect : Option String → Image → Image
run_effect none x = record x { source = none; run = none }
run_effect (some path) x = record x {
  source = none;
  run = some (record { id = x.fresh; awaiting = true; object_url = none });
  fresh = suc x.fresh;
}

-- The answer to the request of `run`, if that is still the one on display.
comes_to : Option Run → ℕ → Image → Image
comes_to none id x = x
comes_to (some run) id x =
    if run.id == id
    then if run.awaiting
      then record x {
        source = some x.fresh;
        run = some (record run { awaiting = false; object_url = some x.fresh });
        live = x.fresh ∷ x.live;
        fresh = suc x.fresh;
      }
      else x
    else x

fails_to : Option Run → ℕ → Image → Image
fails_to none id x = x
fails_to (some run) id x =
    if run.id == id
    then if run.awaiting
      then record x { source = none; run = some (record run { awaiting = false }) }
      else x
    else x

unfoldable pub happens : Event → Image → Image
unfolding clean_up run_effect comes_to fails_to
happens (path_changes path) x = if x.mounted then run_effect path (clean_up x) else x
happens (file_comes id) x = comes_to x.run id x
happens (file_fails id) x = fails_to x.run id x
happens unmounts x = record (clean_up x) { mounted = false }

unfoldable pub happen_all : List Event → Image → Image
unfolding happens
happen_all [] x = x
happen_all (e ∷ es) x = happen_all es (happens e x)

-- The component is mounted with a path.
unfoldable pub mount : Option String → Image
unfolding run_effect
mount path =
    run_effect path (record { mounted = true; source = none; run = none; live = []; fresh = 0 })
