-- ===== src/Reader/Position/Bounds.antt =====
-- Where apps/web/src/pages/ReaderPage.tsx starts reading: `initialSectionIndex` and `loadReader`.
use Prim.Native.Nat.{min}
use novel_platform.Common.{
  ℕ, suc, ◌<◌, ◌-◌, Bool, true, false, Option, none, some, String, List, [], ◌∷◌, length,
  if◌then◌else◌, get_elem?, ◌≡◌, refl, arith, ◌⊎◌, zero, ◌≢◌, inl, inr,
}
use novel_platform.Reader.State.{Arithmetic, Section, Opened}
use novel_platform.Reader.Position.{
  is_id, find_index, initial_section_index, index_from, estimated_index,
}

-- The section at the index that was found, with its identifier.
abbrev Found : Option String → List Section → Option ℕ → Type 0
Found wanted ss none = Unit
Found wanted ss (some i) =
    (s : Section) × (get_elem? ss i ≡ some s) × (is_id wanted s.id ≡ true) × (i < length ss)

Found-cons :
    (wanted : Option String) (b : Bool) (s : Section) (ss : List Section) (rest : Option ℕ)
    → is_id wanted s.id ≡ b
    → Found wanted ss rest
    → Found wanted
        (s ∷ ss)
        (if b then some 0 else elim rest [ none ↦ none | some i ↦ some (suc i) ])
Found-cons wanted true s ss rest e h = (s, refl, e, omega arith)
Found-cons wanted false s ss none e h = tt
Found-cons wanted false s ss (some i) e (t, g, k, l) = (t, g, k, omega arith)

find_index-Found :
    (wanted : Option String) (ss : List Section) → Found wanted ss (find_index wanted ss)
unfolding find_index
find_index-Found wanted [] = tt
find_index-Found wanted (s ∷ ss) =
    Found-cons wanted _ s ss (find_index wanted ss) refl (find_index-Found wanted ss)

if_found :
    (b : Bool) (rest : Option ℕ)
    → rest ≢ none
    → (if b then some 0 else elim rest [ none ↦ none | some i ↦ some (suc i) ]) ≢ none
if_found b rest h = ground arith

-- A section of the identifier is found.
find_index-present :
    (wanted : Option String) (ss : List Section) (i : ℕ) (s : Section)
    → get_elem? ss i ≡ some s
    → is_id wanted s.id ≡ true
    → find_index wanted ss ≢ none
unfolding find_index
find_index-present wanted [] i s g e = ground arith
find_index-present wanted (t ∷ ts) zero s g e = ground arith
find_index-present wanted (t ∷ ts) (suc i) s g e =
    if_found (is_id wanted t.id) (find_index wanted ts) (find_index-present wanted ts i s g e)

get_elem?-some :
    (ss : List Section) (i : ℕ) → i < length ss → (s : Section) × (get_elem? ss i ≡ some s)
get_elem?-some [] i h = ground arith
get_elem?-some (s ∷ ss) zero h = (s, refl)
get_elem?-some (s ∷ ss) (suc i) h = get_elem?-some ss i (omega arith)

min-bound : (n k : ℕ) → ¬ (n ≡ 0) → min (n - 1) k < n
min-bound n k h = ground arith

abbrev At : Option String → List Section → Option ℕ → Type 0
At wanted ss found =
    (i : ℕ) × (s : Section) × (found ≡ some i)
    × (get_elem? ss i ≡ some s)
    × ((is_id wanted s.id ≡ true) ⊎ (find_index wanted ss ≡ none))

module _ {F : Type 0} (ops : Arithmetic F) where
  estimated_index-bound :
      (n : ℕ) (overall : F)
      → ¬ (n ≡ 0)
      → (i : ℕ) × (estimated_index ops n overall ≡ some i) × (i < n)
  estimated_index-bound n overall h = (
    min (n - 1) (ops.floor_index (ops.mul overall (ops.of_nat n))),
    ground arith,
    min-bound n (ops.floor_index (ops.mul overall (ops.of_nat n))) h,
  )

  index_from-At :
      (o : Opened F) (found : Option ℕ)
      → find_index o.progress.section_id o.publication.sections ≡ found
      → ¬ (length o.publication.sections ≡ 0)
      → Found o.progress.section_id o.publication.sections found
      → At o.progress.section_id o.publication.sections (index_from ops found o)
  unfolding index_from
  index_from-At o none e h f =
      let (i, k, l) =
        estimated_index-bound (length o.publication.sections) o.progress.overall_progress h in
      let (s, g) = get_elem?-some o.publication.sections i l in (i, s, k, g, inr e)
  index_from-At o (some i) e h (s, g, k, l) = (i, s, refl, g, inl k)

  -- A publication with sections is opened at one of them, and at the saved one if it is still there.
  pub initial_section_index-get_elem? :
      (o : Opened F)
      → ¬ (length o.publication.sections ≡ 0)
      → (i : ℕ) × (s : Section) × (initial_section_index ops o ≡ some i)
        × (get_elem? o.publication.sections i ≡ some s)
        × ((is_id o.progress.section_id s.id ≡ true)
            ⊎ ((j : ℕ) (t : Section)
                → get_elem? o.publication.sections j ≡ some t
                → is_id o.progress.section_id t.id ≢ true))
  unfolding initial_section_index
  initial_section_index-get_elem? o h =
      let (i, s, e, g, k) =
        index_from-At o _ refl h (find_index-Found o.progress.section_id o.publication.sections) in
      (
        i,
        s,
        e,
        g,
        elim k [
          | inl a ↦ inl a
          | inr n ↦ inr (λ j t g' a.
              find_index-present o.progress.section_id o.publication.sections j t g' a n)
        ],
      )
