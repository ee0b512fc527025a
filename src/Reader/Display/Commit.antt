-- ===== src/Reader/Display/Commit.antt =====
-- The two effects of apps/web/src/pages/ReaderPage.tsx when one of them has to run.
use Prim.Native.Nat.{suc}
use novel_platform.Common.Text.{str_eq, str_eq_iff}
use novel_platform.Common.{
  ℕ, ◌<◌, String, Bool, true, false, ◌&&◌, Option, none, some, ◌≡◌, refl, arith, get_elem?, ◌==◌,
  ◌∙◌,
}
use novel_platform.Reader.State.{Section, Opened, Reader}
use novel_platform.Reader.Display.{
  Fetch, Display, same_object, object_of, kept, selected, same_section_deps, same_restore_deps,
  start_fetch, section_effect, restore_effect, commit, becomes, section_arrives, section_answers,
}

-- The object, if there is one, is older than the next.
abbrev pub Older : Option ℕ → ℕ → Type 0
Older none n = Unit
Older (some m) n = m < n

pub newer : (x : Option ℕ) (n : ℕ) → Older x n → same_object x (some n) ≡ false
newer none n h = refl
newer (some m) n h = ground arith

pub later : (x : Option ℕ) (n : ℕ) → Older x n → Older x (suc (suc n))
later none n h = tt
later (some m) n h = omega (arith, h)

and_false : (a : Bool) → (a && false) ≡ false
and_false a = ground arith

==_refl : (n : ℕ) → (n == n) ≡ true
==_refl n = ground arith

pub str_eq_refl : (s : String) → str_eq s s ≡ true
str_eq_refl s = (str_eq_iff s s).1 refl

same_object_refl : (o : Option ℕ) → same_object o o ≡ true
same_object_refl none = refl
same_object_refl (some n) = ==_refl n

module _ {F : Type 0} where
  commit-fetches :
      (d d' : Display F)
      → same_section_deps d d' ≡ false
      → same_restore_deps d d' ≡ true
      → commit d d' ≡ section_effect d'
  unfolding commit
  commit-fetches d d' a b = rw (a, b)

  commit-restores :
      (d d' : Display F)
      → same_section_deps d d' ≡ true
      → same_restore_deps d d' ≡ false
      → commit d d' ≡ restore_effect d'
  unfolding commit
  commit-restores d d' a b = rw (a, b)

  section_effect-some :
      (d : Display F) (s : Section)
      → selected d.reader.opened d.reader.section_index ≡ some s
      → section_effect d ≡ record d {
        fetch =
            some (record { run = d.fresh; edition_id = d.reader.edition_id; section_id = s.id });
        fresh = suc d.fresh;
        is_loading_section = true;
        section_error = none;
      }
  unfolding section_effect start_fetch
  section_effect-some d s h = rw h

  -- The reader's state changes to one with a new object `opened` and the same section.
  pub renewed :
      (r : Reader F) (o : Opened F) (s : Section) (d : Display F)
      → r.edition_id ≡ d.reader.edition_id
      → r.opened ≡ some o
      → get_elem? o.publication.sections r.section_index ≡ some s
      → kept d.section_object r.section ≡ d.section_object
      → Older d.opened_object d.fresh
      → becomes true r d ≡ record d {
        reader = r;
        opened_object = some d.fresh;
        fresh = suc (suc d.fresh);
        fetch = some (record { run = suc d.fresh; edition_id = r.edition_id; section_id = s.id });
        is_loading_section = true;
        section_error = none;
      }
  unfolding becomes same_section_deps same_restore_deps
  renewed r o s d a b c e f =
      let object_eq : object_of true d.opened_object d.fresh r.opened ≡ some d.fresh = rw b refl in
      let d' : Display F = record d {
        reader = r;
        opened_object = object_of true d.opened_object d.fresh r.opened;
        section_object = kept d.section_object r.section;
        fresh = suc d.fresh;
      } in
      commit-fetches d d' (rw (object_eq, newer _ _ f) (and_false _))
        (rw (a, e, str_eq_refl d.reader.edition_id, same_object_refl d.section_object))
      ∙ section_effect-some d' s (rw b c)
      ∙ rw (object_eq, e) refl

  -- The section that a fetch asks for arrives and is painted.
  pub arrives_restored :
      (id : String) (d : Display F) (f : Fetch)
      → d.fetch ≡ some f
      → Older d.section_object d.fresh
      → section_answers f.run id d
        ≡ restore_effect (record d {
          reader = record d.reader { section = some id };
          section_object = some d.fresh;
          fresh = suc d.fresh;
          is_loading_section = false;
        })
  unfolding section_answers section_arrives same_section_deps same_restore_deps
  arrives_restored id d f a b =
      rw (a, ==_refl f.run)
        (commit-restores d _
          (rw (
            str_eq_refl d.reader.edition_id,
            same_object_refl d.opened_object,
            ==_refl d.section_attempt,
            ==_refl d.reader.section_index,
          ))
          (rw (newer _ _ b) (and_false _)))
