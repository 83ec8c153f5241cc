-- ===== src/Manifest/Paths.antt =====
-- Files with distinct paths: sorting, adding and erasing keep them distinct.
use kronos_engine.Prelude.{
  ◌≡◌, ◌↔◌, refl, ◌∙◌, false, ◌||◌, List, [], ◌∷◌, ◌++◌, Bytes, str_eq, eq_of_compare, compare_refl,
  arith,
}
use kronos_engine.Types.{SstableMetadata}
use kronos_engine.Files.{insert_file, sort_metadata, In}
use kronos_engine.Manifest.{contains, erase_path}

-- No two files have one path.
abbrev pub IsDistinct : List SstableMetadata → Type 0
IsDistinct [] = Unit {0}
IsDistinct (x ∷ xs) = (contains x.path xs ≡ false) × IsDistinct xs

pub contains-append :
    (path : Bytes) (xs ys : List SstableMetadata)
    → contains path (xs ++ ys) ≡ contains path xs || contains path ys
unfolding contains
contains-append path [] ys = refl
contains-append path (x ∷ xs) ys = ground (arith, contains-append path xs ys)

contains-insert_file :
    (path : Bytes) (x : SstableMetadata) (xs : List SstableMetadata)
    → contains path (insert_file x xs) ≡ str_eq x.path path || contains path xs
unfolding contains insert_file
contains-insert_file path x [] = refl
contains-insert_file path x (y ∷ ys) = ground (arith, contains-insert_file path x ys)

pub contains-sort_metadata :
    (path : Bytes) (xs : List SstableMetadata) → contains path (sort_metadata xs) ≡ contains path xs
unfolding contains sort_metadata
contains-sort_metadata path [] = refl
contains-sort_metadata path (x ∷ xs) =
    ground (arith, contains-insert_file path x (sort_metadata xs), contains-sort_metadata path xs)

str_eq_sym : (a b : Bytes) → str_eq a b ≡ str_eq b a
str_eq_sym a b =
    ground (arith, eq_of_compare a b, eq_of_compare b a, compare_refl a, compare_refl b)

insert_file-IsDistinct :
    (x : SstableMetadata) (xs : List SstableMetadata)
    → contains x.path xs ≡ false
    → IsDistinct xs
    → IsDistinct (insert_file x xs)
unfolding insert_file contains
insert_file-IsDistinct x [] c d = (refl, tt)
insert_file-IsDistinct x (y ∷ ys) c d =
    ground (
      arith,
      insert_file-IsDistinct x ys,
      contains-insert_file y.path x ys,
      str_eq_sym x.path y.path,
    )

pub sort_metadata-IsDistinct :
    (xs : List SstableMetadata) → IsDistinct xs → IsDistinct (sort_metadata xs)
unfolding sort_metadata
sort_metadata-IsDistinct [] d = tt
sort_metadata-IsDistinct (x ∷ xs) d =
    insert_file-IsDistinct x (sort_metadata xs) (contains-sort_metadata x.path xs ∙ d.0)
      (sort_metadata-IsDistinct xs d.1)

pub append-IsDistinct :
    (xs : List SstableMetadata) (x : SstableMetadata)
    → contains x.path xs ≡ false
    → IsDistinct xs
    → IsDistinct (xs ++ x ∷ [])
unfolding contains
append-IsDistinct [] x c d = (refl, tt)
append-IsDistinct (y ∷ ys) x c d =
    ground
      (arith, append-IsDistinct ys x, contains-append y.path ys (x ∷ []), str_eq_sym x.path y.path)

contains-erase_path :
    (path gone : Bytes) (xs : List SstableMetadata)
    → contains path xs ≡ false
    → contains path (erase_path gone xs) ≡ false
unfolding contains erase_path
contains-erase_path path gone [] c = refl
contains-erase_path path gone (x ∷ xs) c = ground (arith, contains-erase_path path gone xs)

pub erase_path-IsDistinct :
    (path : Bytes) (xs : List SstableMetadata) → IsDistinct xs → IsDistinct (erase_path path xs)
unfolding erase_path
erase_path-IsDistinct path [] d = tt
erase_path-IsDistinct path (x ∷ xs) d =
    ground (arith, erase_path-IsDistinct path xs, contains-erase_path x.path path xs)

pub In-erase_path :
    (file : SstableMetadata) (path : Bytes) (xs : List SstableMetadata)
    → In file (erase_path path xs) ↔ (In file xs × (str_eq file.path path ≡ false))
unfolding erase_path
In-erase_path file path [] = ground arith
In-erase_path file path (x ∷ xs) = ground (arith, In-erase_path file path xs)
