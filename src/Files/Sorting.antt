-- ===== src/Files/Sorting.antt =====
-- Sorting keeps the files and orders them.
use kronos_engine.Prelude.{
  ◌≡◌, ◌⊎◌, inl, inr, ◌↔◌, true, false, List, [], ◌∷◌, ◌++◌, Bytes, str_lt, lt_trans, gt_of_lt,
  lt_of_gt, eq_of_compare, All, All-imp, Bool-cases, arith,
}
use kronos_engine.Types.{SstableMetadata}
use kronos_engine.Files.{file_precedes, insert_file, sort_metadata, In}

In-insert_file :
    (file x : SstableMetadata) (xs : List SstableMetadata)
    → In file (insert_file x xs) ↔ ((x ≡ file) ⊎ In file xs)
unfolding insert_file
In-insert_file file x [] = (λ h. h, λ h. h)
In-insert_file file x (y ∷ ys) = ground (arith, In-insert_file file x ys)

pub In-sort_metadata :
    (file : SstableMetadata) (xs : List SstableMetadata) → In file (sort_metadata xs) ↔ In file xs
unfolding sort_metadata
In-sort_metadata file [] = (λ h. h, λ h. h)
In-sort_metadata file (x ∷ xs) =
    ground (arith, In-insert_file file x (sort_metadata xs), In-sort_metadata file xs)

pub In-append :
    (file : SstableMetadata) (xs ys : List SstableMetadata)
    → In file (xs ++ ys) ↔ (In file xs ⊎ In file ys)
In-append file [] ys = (λ h. inr h, λ h. elim h [ inl n ↦ absurd n | inr k ↦ k ])
In-append file (x ∷ xs) ys = ground (arith, In-append file xs ys)

-- No file comes after one that it precedes.
abbrev pub IsOrdered : List SstableMetadata → Type 0
IsOrdered [] = Unit {0}
IsOrdered (x ∷ xs) = All (λ y. file_precedes y x ≡ false) xs × IsOrdered xs

not_lt_trans : (a b c : Bytes) → str_lt a b ≡ false → str_lt b c ≡ false → str_lt a c ≡ false
not_lt_trans a b c h k = ground (
  arith,
  lt_trans a c b,
  lt_trans c b a,
  lt_trans b a c,
  eq_of_compare a b,
  eq_of_compare b c,
  eq_of_compare a c,
  lt_of_gt a b,
  lt_of_gt b c,
  gt_of_lt a c,
)

precedes_asym : (a b : SstableMetadata) → file_precedes a b ≡ true → file_precedes b a ≡ false
unfolding file_precedes
precedes_asym a b h = ground (arith, gt_of_lt a.path b.path)

precedes_trans :
    (a b c : SstableMetadata)
    → file_precedes a b ≡ false
    → file_precedes b c ≡ false
    → file_precedes a c ≡ false
unfolding file_precedes
precedes_trans a b c h k = ground (arith, not_lt_trans a.path b.path c.path)

All-insert_file {κ} :
    (x : SstableMetadata) (xs : List SstableMetadata) (P : SstableMetadata → Type κ)
    → P x
    → All P xs
    → All P (insert_file x xs)
unfolding insert_file
All-insert_file x [] P p a = (p, tt)
All-insert_file x (y ∷ ys) P p a = elim (Bool-cases (file_precedes y x)) [
  | inl before ↦ rw before (a.0, All-insert_file x ys P p a.1)
  | inr after ↦ rw after (p, a)
]

insert_file-IsOrdered :
    (x : SstableMetadata) (xs : List SstableMetadata) → IsOrdered xs → IsOrdered (insert_file x xs)
unfolding insert_file
insert_file-IsOrdered x [] o = (tt, tt)
insert_file-IsOrdered x (y ∷ ys) o = elim (Bool-cases (file_precedes y x)) [
  | inl before ↦ rw before (
    All-insert_file x ys (λ z. file_precedes z y ≡ false) (precedes_asym y x before) o.0,
    insert_file-IsOrdered x ys o.1,
  )
  | inr after ↦ rw after ((after, All-imp (λ z h. precedes_trans z y x h after) ys o.0), o)
]

pub sort_metadata-IsOrdered : (xs : List SstableMetadata) → IsOrdered (sort_metadata xs)
unfolding sort_metadata
sort_metadata-IsOrdered [] = tt
sort_metadata-IsOrdered (x ∷ xs) =
    insert_file-IsOrdered x (sort_metadata xs) (sort_metadata-IsOrdered xs)
