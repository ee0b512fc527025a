-- ===== src/Shared/ProtectedImage/Urls.antt =====
-- The object URLs of `ProtectedImage` (apps/web/src/shared/ProtectedImage.tsx) that are not revoked.
use Prim.Native.Nat.{suc}
use novel_platform.Common.{
  ℕ, String, Bool, true, false, Option, none, some, List, [], ◌∷◌, ◌≡◌, ◌≢◌, refl, sym, subst,
  arith, if◌then◌else◌, ◌==◌,
}
use novel_platform.Shared.ProtectedImage.{
  Run, Image, Event, path_changes, file_comes, file_fails, unmounts, revoke, url_of, revoke_some,
  clean_up, run_effect, comes_to, fails_to, happens, happen_all, mount,
}

abbrev pub to_list : Option ℕ → List ℕ
to_list none = []
to_list (some u) = u ∷ []

-- A request that is unanswered has no object URL yet.
abbrev Fresh : Option Run → Type 0
Fresh none = Unit
Fresh (some run) = run.awaiting ≡ true → run.object_url ≡ none

record Tidy (x : Image) : Type 0 where
  live : x.live ≡ to_list (url_of x.run)
  shown : x.mounted ≡ true → x.source ≡ url_of x.run
  unmounted : x.mounted ≡ false → x.run ≡ none
  fresh : Fresh x.run

revoke_only : (u : Option ℕ) → revoke_some u (to_list u) ≡ []
unfolding revoke_some revoke
revoke_only none = refl
revoke_only (some u) = ground arith

clean_up-live : (x : Image) → Tidy x → (clean_up x).live ≡ []
unfolding clean_up
clean_up-live x h = rw h.live (revoke_only (url_of x.run))

effect-Tidy :
    (path : Option String) (x : Image) → x.mounted ≡ true → x.live ≡ [] → Tidy (run_effect path x)
unfolding run_effect
effect-Tidy none x m h = record { live = h; shown = λ e. refl; unmounted = λ e. refl; fresh = tt }
effect-Tidy (some path) x m h = record {
  live = h;
  shown = λ e. refl;
  unmounted = λ e. absurd (ground (arith, m, e));
  fresh = λ e. refl;
}

if-Tidy :
    (b : Bool) {x y : Image}
    → (b ≡ true → Tidy x)
    → (b ≡ false → Tidy y)
    → Tidy (if b then x else y)
if-Tidy true h k = h refl
if-Tidy false h k = k refl

mounted_of : (x : Image) (run : Run) → x.run ≡ some run → Tidy x → x.mounted ≢ false
mounted_of x run e h m = ground (arith, h.unmounted m, e)

comes-Tidy :
    (run : Option Run) (id : ℕ) (x : Image) → x.run ≡ run → Tidy x → Tidy (comes_to run id x)
unfolding comes_to
comes-Tidy none id x e h = h
comes-Tidy (some run) id x e h =
    if-Tidy (run.id == id)
      (λ i.
        if-Tidy run.awaiting
          {x = record x {
            source = some x.fresh;
            run = some (record run { awaiting = false; object_url = some x.fresh });
            live = x.fresh ∷ x.live;
            fresh = suc x.fresh;
          }}
          (λ a.
            let none_yet : run.object_url ≡ none = subst Fresh e h.fresh a in
            record {
              live = rw (h.live, e, none_yet);
              shown = λ m. refl;
              unmounted = λ m. absurd (mounted_of x run e h m);
              fresh = λ m. absurd (ground arith);
            })
          (λ a. h))
      (λ i. h)

fails-Tidy :
    (run : Option Run) (id : ℕ) (x : Image) → x.run ≡ run → Tidy x → Tidy (fails_to run id x)
unfolding fails_to
fails-Tidy none id x e h = h
fails-Tidy (some run) id x e h =
    if-Tidy (run.id == id)
      (λ i.
        if-Tidy run.awaiting
          (λ a.
            let none_yet : run.object_url ≡ none = subst Fresh e h.fresh a in
            record {
              live = rw (h.live, e);
              shown = λ m. sym none_yet;
              unmounted = λ m. absurd (mounted_of x run e h m);
              fresh = λ m. absurd (ground arith);
            })
          (λ a. h))
      (λ i. h)

happens-Tidy : (e : Event) (x : Image) → Tidy x → Tidy (happens e x)
unfolding happens clean_up
happens-Tidy (path_changes path) x h =
    if-Tidy x.mounted (λ m. effect-Tidy path (clean_up x) m (clean_up-live x h)) (λ m. h)
happens-Tidy (file_comes id) x h = comes-Tidy x.run id x refl h
happens-Tidy (file_fails id) x h = fails-Tidy x.run id x refl h
happens-Tidy unmounts x h = record {
  live = clean_up-live x h;
  shown = λ e. absurd (ground arith);
  unmounted = λ e. refl;
  fresh = tt;
}

happen_all-Tidy : (es : List Event) (x : Image) → Tidy x → Tidy (happen_all es x)
unfolding happen_all
happen_all-Tidy [] x h = h
happen_all-Tidy (e ∷ es) x h = happen_all-Tidy es (happens e x) (happens-Tidy e x h)

-- However paths change, files come or fail and the component unmounts, the object URLs that are not
-- revoked are the one on display while it is mounted, and none once it is not.
pub happen_all-live :
    (path : Option String) (es : List Event)
    → let x = happen_all es (mount path) in
      (x.mounted ≡ true → x.live ≡ to_list x.source) × (x.mounted ≡ false → x.live ≡ [])
unfolding mount
happen_all-live path es =
    let h = happen_all-Tidy es (mount path) (effect-Tidy path _ refl refl) in
    (λ m. rw (h.live, h.shown m), λ m. rw (h.live, h.unmounted m))
