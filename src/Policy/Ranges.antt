-- ===== src/Policy/Ranges.antt =====
-- Key ranges: their order, where they meet, and the range that the policy builds up.
use kronos_engine.Prelude.{
  ◌≡◌, ◌⊎◌, inl, inr, ◌↔◌, refl, ◌∙◌, subst, true, false, List, [], ◌∷◌, Bytes, str_lt, lt_trans,
  lt_of_gt, gt_of_lt, eq_of_compare, compare_refl, Bool-cases, arith,
}
use kronos_engine.Types.{SstableMetadata}
use kronos_engine.Files.{In}
use kronos_engine.Policy.{ranges_overlap, min_key, max_key, envelope}

-- `a` is not after `b`.
infix 50 ◌≼◌
abbrev pub ◌≼◌ : Bytes → Bytes → Type 0
a ≼ b = str_lt b a ≡ false

pub ≼_trans : (a b c : Bytes) → a ≼ b → b ≼ c → a ≼ c
≼_trans a b c h k = ground (
  arith,
  lt_trans c a b,
  lt_trans a c b,
  lt_trans b a c,
  lt_trans c b a,
  eq_of_compare a b,
  eq_of_compare b c,
  eq_of_compare b a,
  eq_of_compare c b,
  eq_of_compare c a,
  lt_of_gt b a,
  lt_of_gt c b,
  gt_of_lt c a,
)

-- The two ranges share a key, where each of them has one.
abbrev pub Meets : Bytes → Bytes → SstableMetadata → Type 0
Meets smallest largest file = (file.smallest_key ≼ largest) × (smallest ≼ file.largest_key)

pub ranges_overlap-Meets :
    (smallest largest : Bytes) (file : SstableMetadata)
    → (ranges_overlap smallest largest file.smallest_key file.largest_key ≡ true)
      ↔ Meets smallest largest file
unfolding ranges_overlap
ranges_overlap-Meets smallest largest file = ground arith

-- The range that the loop leaves is wide enough for every file.
record Covers (smallest largest : Bytes) (files : List SstableMetadata) (range : Bytes × Bytes)
    : Type 0 where
  low : range.0 ≼ smallest
  high : largest ≼ range.1
  files_low : (file : SstableMetadata) → In file files → range.0 ≼ file.smallest_key
  files_high : (file : SstableMetadata) → In file files → file.largest_key ≼ range.1

min_key-≼ : (a b : Bytes) → (min_key a b ≼ a) × (min_key a b ≼ b)
min_key-≼ a b = ground (arith, compare_refl a, compare_refl b, gt_of_lt b a)

max_key-≼ : (a b : Bytes) → (a ≼ max_key a b) × (b ≼ max_key a b)
max_key-≼ a b = ground (arith, compare_refl a, compare_refl b, gt_of_lt a b)

≼_refl : (a : Bytes) → a ≼ a
≼_refl a = ground (arith, compare_refl a)

envelope-Covers :
    (smallest largest : Bytes) (files : List SstableMetadata)
    → Covers smallest largest files (envelope smallest largest files)
unfolding envelope
envelope-Covers smallest largest [] = record {
  low = ≼_refl smallest;
  high = ≼_refl largest;
  files_low = λ file h. absurd h;
  files_high = λ file h. absurd h;
}
envelope-Covers smallest largest (x ∷ files) =
    let low_key = min_key smallest x.smallest_key in
    let high_key = max_key largest x.largest_key in
    let range = envelope low_key high_key files in
    let c = envelope-Covers low_key high_key files in
    record {
      low = ≼_trans range.0 low_key smallest c.low (min_key-≼ smallest x.smallest_key).0;
      high = ≼_trans largest high_key range.1 (max_key-≼ largest x.largest_key).0 c.high;
      files_low = λ file h. elim h [
        | inl e ↦ ≼_trans range.0 low_key file.smallest_key c.low (
            subst (λ (f : SstableMetadata). low_key ≼ f.smallest_key) e
              (min_key-≼ smallest x.smallest_key).1)
        | inr k ↦ c.files_low file k
      ];
      files_high = λ file h. elim h [
        | inl e ↦
            ≼_trans file.largest_key high_key range.1
              (subst (λ (f : SstableMetadata). f.largest_key ≼ high_key) e
                (max_key-≼ largest x.largest_key).1)
              c.high
        | inr k ↦ c.files_high file k
      ];
    }

-- And no wider: each end is a file's, or was there at the start.
envelope-attained :
    (smallest largest : Bytes) (files : List SstableMetadata)
    → (((envelope smallest largest files).0 ≡ smallest)
        ⊎ ((a : SstableMetadata) × In a files
            × ((envelope smallest largest files).0 ≡ a.smallest_key)))
      × (((envelope smallest largest files).1 ≡ largest)
          ⊎ ((b : SstableMetadata) × In b files
              × ((envelope smallest largest files).1 ≡ b.largest_key)))
unfolding envelope
envelope-attained smallest largest [] = (inl refl, inl refl)
envelope-attained smallest largest (x ∷ files) =
    let (low, high) =
      envelope-attained (min_key smallest x.smallest_key) (max_key largest x.largest_key) files in
    (
      elim low [
        | inr (a, m, e) ↦ inr (a, inr m, e)
        | inl e ↦ elim (Bool-cases (str_lt x.smallest_key smallest)) [
          | inl less ↦ inr (x, inl refl, e ∙ rw less refl)
          | inr more ↦ inl (e ∙ rw more refl)
        ]
      ],
      elim high [
        | inr (b, m, e) ↦ inr (b, inr m, e)
        | inl e ↦ elim (Bool-cases (str_lt largest x.largest_key)) [
          | inl more ↦ inr (x, inl refl, e ∙ rw more refl)
          | inr less ↦ inl (e ∙ rw less refl)
        ]
      ],
    )

module _ (first : SstableMetadata) (others : List SstableMetadata) where
  abbrev l0 : List SstableMetadata
  l0 = first ∷ others

  abbrev range : Bytes × Bytes
  range = envelope first.smallest_key first.largest_key l0

  pub Meets-files :
      (file : SstableMetadata)
      → Meets range.0 range.1 file ↔ (
          (a : SstableMetadata) × (b : SstableMetadata) × In a l0
          × In b l0
          × (a.smallest_key ≼ file.largest_key)
          × (file.smallest_key ≼ b.largest_key))
  Meets-files file = (
    λ (upper, lower).
        let (low, high) = envelope-attained first.smallest_key first.largest_key l0 in
        let (a, in_a, e) = attained_low low in
        let (b, in_b, k) = attained_high high in
        (
          a,
          b,
          in_a,
          in_b,
          subst (λ x. x ≼ file.largest_key) e lower,
          subst (λ x. file.smallest_key ≼ x) k upper,
        ),
    λ (a, b, in_a, in_b, lower, upper).
        let c = envelope-Covers first.smallest_key first.largest_key l0 in
        (
          ≼_trans file.smallest_key b.largest_key range.1 upper (c.files_high b in_b),
          ≼_trans range.0 a.smallest_key file.largest_key (c.files_low a in_a) lower,
        ),
  )
    where
      attained_low :
          ((range.0 ≡ first.smallest_key)
            ⊎ ((a : SstableMetadata) × In a l0 × (range.0 ≡ a.smallest_key)))
          → (a : SstableMetadata) × In a l0 × (range.0 ≡ a.smallest_key)
      attained_low (inl e) = (first, inl refl, e)
      attained_low (inr h) = h

      attained_high :
          ((range.1 ≡ first.largest_key)
            ⊎ ((b : SstableMetadata) × In b l0 × (range.1 ≡ b.largest_key)))
          → (b : SstableMetadata) × In b l0 × (range.1 ≡ b.largest_key)
      attained_high (inl e) = (first, inl refl, e)
      attained_high (inr h) = h
