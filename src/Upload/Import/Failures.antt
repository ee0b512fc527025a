-- ===== src/Upload/Import/Failures.antt =====
-- The failed uploads that apps/web/src/pages/UploadPage.tsx lists, as a set of identifiers.
use novel_platform.Common.{
  String, Bool, true, false, ◌||◌, Option, none, some, List, [], ◌∷◌, ◌++◌, any, ◌≡◌, refl, arith,
  if◌then◌else◌,
}
use novel_platform.Common.Text.{str_eq, str_eq_iff}
use novel_platform.Upload.Import.{FailedImport}
use novel_platform.Upload.Import.Inspecting.{add_failed, without_id, has_id}

abbrev pub NoDuplicates : List FailedImport → Type 0
NoDuplicates [] = Unit
NoDuplicates (x ∷ xs) = (any (has_id x.id) xs ≡ false) × NoDuplicates xs

str_eq_sym : (a b : String) → str_eq a b ≡ str_eq b a
str_eq_sym a b = ground (arith, str_eq_iff a b, str_eq_iff b a)

any-append :
    (p : FailedImport → Bool) (xs : List FailedImport) (y : FailedImport)
    → any p (xs ++ y ∷ []) ≡ any p xs || p y
any-append p [] y = ground arith
any-append p (x ∷ xs) y = ground (arith, any-append p xs y)

NoDuplicates-append :
    (xs : List FailedImport) (y : FailedImport)
    → any (has_id y.id) xs ≡ false
    → NoDuplicates xs
    → NoDuplicates (xs ++ y ∷ [])
NoDuplicates-append [] y h d = (refl, tt)
NoDuplicates-append (x ∷ xs) y h (e, d) = (
  ground (arith, any-append (has_id x.id) xs y, str_eq_sym x.id y.id),
  NoDuplicates-append xs y (ground arith) d,
)

any-without_id :
    (p : FailedImport → Bool) (id : String) (xs : List FailedImport)
    → any p xs ≡ false
    → any p (without_id id xs) ≡ false
unfolding without_id
any-without_id p id [] h = refl
any-without_id p id (x ∷ xs) h = ground (arith, any-without_id p id xs (ground arith))

without_id-gone :
    (id : String) (xs : List FailedImport) → any (has_id id) (without_id id xs) ≡ false
unfolding without_id
without_id-gone id [] = refl
without_id-gone id (x ∷ xs) = ground (arith, without_id-gone id xs)

if-NoDuplicates :
    (b : Bool) (xs ys : List FailedImport)
    → NoDuplicates xs
    → NoDuplicates ys
    → NoDuplicates (if b then xs else ys)
if-NoDuplicates true xs ys h k = h
if-NoDuplicates false xs ys h k = k

without_id-NoDuplicates :
    (id : String) (xs : List FailedImport) → NoDuplicates xs → NoDuplicates (without_id id xs)
unfolding without_id
without_id-NoDuplicates id [] h = tt
without_id-NoDuplicates id (x ∷ xs) (h, d) =
    if-NoDuplicates (has_id id x) (without_id id xs) (x ∷ without_id id xs)
      (without_id-NoDuplicates id xs d)
      (any-without_id (has_id x.id) id xs h, without_id-NoDuplicates id xs d)

add_to :
    (b : Bool) (id filename : String) (xs : List FailedImport)
    → any (has_id id) xs ≡ b
    → NoDuplicates xs
    → NoDuplicates (if b then xs else xs ++ record { id = id; filename = filename } ∷ [])
add_to true id filename xs h d = d
add_to false id filename xs h d = NoDuplicates-append xs _ h d

-- A failure is listed once however often it is reported, and a deletion leaves no entry of its
-- identifier and no other one twice.
failures-NoDuplicates :
    (xs : List FailedImport) (id : Option String) (filename gone : String)
    → NoDuplicates xs
    → NoDuplicates (add_failed id filename xs)
      × NoDuplicates (without_id gone xs)
      × (any (has_id gone) (without_id gone xs) ≡ false)
unfolding add_failed
failures-NoDuplicates xs none filename gone d =
    (d, without_id-NoDuplicates gone xs d, without_id-gone gone xs)
failures-NoDuplicates xs (some id) filename gone d =
    (add_to _ id filename xs refl d, without_id-NoDuplicates gone xs d, without_id-gone gone xs)
