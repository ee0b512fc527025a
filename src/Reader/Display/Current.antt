-- ===== src/Reader/Display/Current.antt =====
-- Which section apps/web/src/pages/ReaderPage.tsx awaits.
use Prim.Native.Nat.{suc}
use novel_platform.Common.{
  ℕ, String, Bool, true, false, ◌&&◌, Option, none, some, ◌≡◌, ◌⊎◌, inl, inr, refl, sym, subst, ◌∙◌,
  arith, if◌then◌else◌, ==_iff,
}
use novel_platform.Common.Text.{str_eq_iff}
use novel_platform.Reader.State.{Section, Opened, Reader}
use novel_platform.Reader.Display.{
  Fetch, Display, same_object, same_section_deps, same_restore_deps, selected, object_of, kept,
  start_fetch, section_effect, restore_effect, commit, becomes,
}
use novel_platform.Reader.Display.Commit.{Older, newer}
use novel_platform.Reader.Display.Events.{Aged, becomes-Aged}

-- The section that a fetch asks for is the one that the page is at, and of the edition of the address.
abbrev pub Asks : String → Option Fetch → Option Section → Type 0
Asks id none s = Unit
Asks id (some f) none = ⊥
Asks id (some f) (some s) = (f.edition_id ≡ id) × (f.section_id ≡ s.id)

split_if :
    {A : Type 0} (P : A → Type 0) (b : Bool) {x y : A}
    → (b ≡ true → P x)
    → (b ≡ false → P y)
    → P (if b then x else y)
split_if P true h k = h refl
split_if P false h k = k refl

both : (a b : Bool) → (a && b) ≡ true → (a ≡ true) × (b ≡ true)
both a b h = ground arith

module _ {F : Type 0} where
  abbrev pub Right : Display F → Type 0
  Right d = Asks d.reader.edition_id d.fetch (selected d.reader.opened d.reader.section_index)

  abbrev Known : Display F → Type 0
  Known d = d.opened_object ≡ none → d.reader.opened ≡ none

  start_fetch-Asks :
      (o : Option Section) (d : Display F) → Asks d.reader.edition_id (start_fetch o d).fetch o
  unfolding start_fetch
  start_fetch-Asks none d = tt
  start_fetch-Asks (some s) d = (refl, refl)

  start_fetch-selected :
      (o : Option Section) (d : Display F)
      → selected (start_fetch o d).reader.opened (start_fetch o d).reader.section_index
        ≡ selected d.reader.opened d.reader.section_index
  unfolding start_fetch
  start_fetch-selected none d = refl
  start_fetch-selected (some s) d = refl

  start_fetch-edition_id :
      (o : Option Section) (d : Display F)
      → (start_fetch o d).reader.edition_id ≡ d.reader.edition_id
  unfolding start_fetch
  start_fetch-edition_id none d = refl
  start_fetch-edition_id (some s) d = refl

  section_effect-Right : (d : Display F) → Right (section_effect d)
  unfolding section_effect
  section_effect-Right d =
      let o = selected d.reader.opened d.reader.section_index in
      rw (start_fetch-edition_id o d, start_fetch-selected o d) (start_fetch-Asks o d)

  start_fetch-Known : (o : Option Section) (d : Display F) → Known d → Known (start_fetch o d)
  unfolding start_fetch
  start_fetch-Known none d h = h
  start_fetch-Known (some s) d h = h

  pub commit-Right :
      (d d' : Display F) → (same_section_deps d d' ≡ true → Right d') → Right (commit d d')
  unfolding commit restore_effect
  commit-Right d d' h =
      let fetched = split_if Right (same_section_deps d d') h (λ e. section_effect-Right d') in
      split_if Right (same_restore_deps d d') (λ e. fetched) (λ e. fetched)

  pub commit-Known : (d d' : Display F) → Known d' → Known (commit d d')
  unfolding commit restore_effect section_effect
  commit-Known d d' h =
      let fetched =
        split_if Known (same_section_deps d d') {x = d'} {y = section_effect d'} (λ e. h)
          (λ e. start_fetch-Known _ d' h) in
      split_if Known (same_restore_deps d d') (λ e. fetched) (λ e. fetched)

  pub record Current (d : Display F) : Type 0 where
    pub right : Right d
    pub known : Known d
    pub aged : Aged d

  moved :
      (b : Bool) (x : Option ℕ) (n : ℕ) (new old : Option (Opened F)) (i j : ℕ) (f : Option Fetch)
      (id : String)
      → same_object x (object_of b x n new) ≡ true
      → i ≡ j
      → Older x n
      → (x ≡ none → old ≡ none)
      → (b ≡ false → (new ≡ none) ⊎ (new ≡ old))
      → Asks id f (selected old i)
      → Asks id f (selected new j)
  moved b none n none old i j f id e k h known keeps asks =
      subst (λ o. Asks id f (selected o i)) (known refl) asks
  moved b (some m) n none old i j f id e k h known keeps asks = absurd (ground arith)
  moved true x n (some o) old i j f id e k h known keeps asks = absurd (ground (arith, newer x n h))
  moved false x n (some o) old i j f id e k h known keeps asks = elim (keeps refl) [
    | inl gone ↦ absurd (ground arith)
    | inr same ↦
        subst (λ o'. Asks id f (selected o' j)) (sym same)
          (subst (λ i'. Asks id f (selected old i')) k asks)
  ]

  deps_of :
      (d d' : Display F)
      → same_section_deps d d' ≡ true
      → (d.reader.edition_id ≡ d'.reader.edition_id)
        × (same_object d.opened_object d'.opened_object ≡ true)
        × (d.reader.section_index ≡ d'.reader.section_index)
  unfolding same_section_deps
  deps_of d d' h =
      let rest = (both _ _ h).1 in
      let (objects, others) = both _ _ rest in
      (
        (str_eq_iff d.reader.edition_id d'.reader.edition_id).0 (both _ _ h).0,
        objects,
        (==_iff d.reader.section_index d'.reader.section_index).0 (both _ _ others).1,
      )

  known_of :
      (b : Bool) (x : Option ℕ) (n : ℕ) (new old : Option (Opened F))
      → (x ≡ none → old ≡ none)
      → (b ≡ false → (new ≡ none) ⊎ (new ≡ old))
      → object_of b x n new ≡ none
      → new ≡ none
  known_of b x n none old known keeps e = refl
  known_of true x n (some o) old known keeps e = absurd (ground arith)
  known_of false x n (some o) old known keeps e = elim (keeps refl) [
    | inl gone ↦ gone
    | inr same ↦ same ∙ known e
  ]

  pub becomes-Current :
      (b : Bool) (r : Reader F) (d : Display F)
      → (b ≡ false → (r.opened ≡ none) ⊎ (r.opened ≡ d.reader.opened))
      → Current d
      → Current (becomes b r d)
  unfolding becomes
  becomes-Current b r d keeps c =
      let d' : Display F = record d {
        reader = r;
        opened_object = object_of b d.opened_object d.fresh r.opened;
        section_object = kept d.section_object r.section;
        fresh = suc d.fresh;
      } in
      record {
        right = commit-Right d d' (λ e.
            let (edition, objects, index) = deps_of d d' e in
            subst (λ id. Asks id d.fetch (selected r.opened r.section_index)) edition
              (moved b d.opened_object d.fresh r.opened d.reader.opened _ _ d.fetch _ objects index
                c.aged.opened_object c.known keeps c.right));
        known =
            commit-Known d d'
              (known_of b d.opened_object d.fresh r.opened d.reader.opened c.known keeps);
        aged = becomes-Aged b r d c.aged;
      }
