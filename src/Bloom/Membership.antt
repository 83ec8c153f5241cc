-- ===== src/Bloom/Membership.antt =====
-- The filter has no false negatives.
use kronos_engine.Prelude.{
  ℕ, zero, suc, ◌+◌, ◌*◌, ◌/◌, ◌%◌, ◌^◌, ◌<◌, ◌≤◌, ◌≡◌, ◌↔◌, ◌⊎◌, inl, inr, subst, refl, ap, ◌∙◌,
  true, none, some, List, [], ◌∷◌, Bytes, length, ◌==◌, if◌then◌else◌, arith, All,
}
use native.Mathlib.Nat.{mod-lt}
use kronos_engine.Bloom.{
  restore, BloomFilter, bloom_filter_seed, zeros, make, set_bit, test_bit, set_at, test_at,
  delta_of, add_loop, add, may_contain_loop, may_contain,
}

-- There is a bit to look at, and the bytes hold all the bits: no index is out of range.
pub record IsValid (f : BloomFilter) : Type 0 where
  pub some_bits : 0 < f.bit_count
  pub room : f.bit_count ≤ 8 * length f.bits

-- The bits that are set stay set.
abbrev Grows : Bytes → Bytes → Type 0
Grows bits bits' =
    (index offset : ℕ) → test_at index offset bits ≡ true → test_at index offset bits' ≡ true

low_digit : (byte n : ℕ) → (byte % 2 + 2 * n) / 2 ≡ n
low_digit byte n = omega arith

set_bit-low : (byte : ℕ) → set_bit 0 byte / 2 ≡ byte / 2
unfolding set_bit
set_bit-low byte = ground arith

test_bit-set_bit : (i byte : ℕ) → test_bit i (set_bit i byte) ≡ true
unfolding test_bit set_bit
test_bit-set_bit zero byte = ground arith
test_bit-set_bit (suc i) byte =
    ap (test_bit i) (low_digit byte (set_bit i (byte / 2))) ∙ test_bit-set_bit i (byte / 2)

test_bit-set_bit_other :
    (i j byte : ℕ) → test_bit j byte ≡ true → test_bit j (set_bit i byte) ≡ true
unfolding test_bit set_bit
test_bit-set_bit_other zero zero byte h = ground arith
test_bit-set_bit_other zero (suc j) byte h = ap (test_bit j) (set_bit-low byte) ∙ h
test_bit-set_bit_other (suc i) zero byte h = ground arith
test_bit-set_bit_other (suc i) (suc j) byte h =
    ap (test_bit j) (low_digit byte (set_bit i (byte / 2)))
    ∙ test_bit-set_bit_other i j (byte / 2) h

test_at-set_at :
    (index offset : ℕ) (bits : Bytes)
    → index < length bits
    → test_at index offset (set_at index offset bits) ≡ true
unfolding test_at set_at
test_at-set_at index offset [] h = absurd (omega arith)
test_at-set_at zero offset (b ∷ bs) h = test_bit-set_bit offset b
test_at-set_at (suc index) offset (b ∷ bs) h = test_at-set_at index offset bs (omega arith)

set_at-Grows : (index offset : ℕ) (bits : Bytes) → Grows bits (set_at index offset bits)
unfolding test_at set_at
set_at-Grows index offset [] i o h = h
set_at-Grows zero offset (b ∷ bs) zero o h = test_bit-set_bit_other offset o b h
set_at-Grows zero offset (b ∷ bs) (suc i) o h = h
set_at-Grows (suc index) offset (b ∷ bs) zero o h = h
set_at-Grows (suc index) offset (b ∷ bs) (suc i) o h = set_at-Grows index offset bs i o h

length-set_at : (index offset : ℕ) (bits : Bytes) → length (set_at index offset bits) ≡ length bits
unfolding set_at
length-set_at index offset [] = refl
length-set_at zero offset (b ∷ bs) = refl
length-set_at (suc index) offset (b ∷ bs) = ap suc (length-set_at index offset bs)

add_loop-Grows : (probes delta m h : ℕ) (bits : Bytes) → Grows bits (add_loop probes delta m h bits)
unfolding add_loop
add_loop-Grows zero delta m h bits index offset t = t
add_loop-Grows (suc probes) delta m h bits index offset t =
    add_loop-Grows probes delta m ((h + delta) % 2 ^ 32) (set_at (h % m / 8) (h % m % 8) bits) index
      offset (set_at-Grows (h % m / 8) (h % m % 8) bits index offset t)

length-add_loop :
    (probes delta m h : ℕ) (bits : Bytes) → length (add_loop probes delta m h bits) ≡ length bits
unfolding add_loop
length-add_loop zero delta m h bits = refl
length-add_loop (suc probes) delta m h bits =
    length-add_loop probes delta m ((h + delta) % 2 ^ 32) (set_at (h % m / 8) (h % m % 8) bits)
    ∙ length-set_at (h % m / 8) (h % m % 8) bits

may_contain_loop-Grows :
    (probes delta m h : ℕ) (bits bits' : Bytes)
    → Grows bits bits'
    → may_contain_loop probes delta m h bits ≡ true
    → may_contain_loop probes delta m h bits' ≡ true
unfolding may_contain_loop
may_contain_loop-Grows zero delta m h bits bits' g t = t
may_contain_loop-Grows (suc probes) delta m h bits bits' g t = ground (
  arith,
  g (h % m / 8) (h % m % 8),
  may_contain_loop-Grows probes delta m ((h + delta) % 2 ^ 32) bits bits' g,
)

index-lt : (h m n : ℕ) → 0 < m → m ≤ 8 * n → h % m / 8 < n
index-lt h m n p q = omega (arith, mod-lt h p)

may_contain_loop-add_loop :
    (probes delta m h : ℕ) (bits : Bytes)
    → 0 < m
    → m ≤ 8 * length bits
    → may_contain_loop probes delta m h (add_loop probes delta m h bits) ≡ true
unfolding may_contain_loop add_loop
may_contain_loop-add_loop zero delta m h bits p q = refl
may_contain_loop-add_loop (suc probes) delta m h bits p q =
    let set : Bytes = set_at (h % m / 8) (h % m % 8) bits in
    ground (
      arith,
      add_loop-Grows probes delta m ((h + delta) % 2 ^ 32) set (h % m / 8) (h % m % 8)
          (test_at-set_at (h % m / 8) (h % m % 8) bits (index-lt h m (length bits) p q)),
      may_contain_loop-add_loop probes delta m ((h + delta) % 2 ^ 32) set p
          (omega (arith, length-set_at (h % m / 8) (h % m % 8) bits)),
    )

-- The filter of an SSTable: every key is added, one after the other.
unfoldable pub add_all : (Bytes → ℕ → ℕ) → List Bytes → BloomFilter → BloomFilter
add_all murmur [] f = f
add_all murmur (key ∷ keys) f = add_all murmur keys (add murmur key f)

module _ (murmur : Bytes → ℕ → ℕ) where
  add-IsValid : (key : Bytes) (f : BloomFilter) → IsValid f → IsValid (add murmur key f)
  unfolding add
  add-IsValid key f v =
      let h = murmur key bloom_filter_seed % 2 ^ 32 in
      record {
        some_bits = v.some_bits;
        room =
            omega (arith, v.room, length-add_loop f.probe_count (delta_of h) f.bit_count h f.bits);
      }

  may_contain-add :
      (key : Bytes) (f : BloomFilter) → IsValid f → may_contain murmur key (add murmur key f) ≡ true
  unfolding add may_contain
  may_contain-add key f v =
      let h = murmur key bloom_filter_seed % 2 ^ 32 in
      may_contain_loop-add_loop f.probe_count (delta_of h) f.bit_count h f.bits v.some_bits v.room

  may_contain-add_other :
      (key other : Bytes) (f : BloomFilter)
      → may_contain murmur key f ≡ true
      → may_contain murmur key (add murmur other f) ≡ true
  unfolding add may_contain
  may_contain-add_other key other f t =
      let h = murmur key bloom_filter_seed % 2 ^ 32 in
      let k = murmur other bloom_filter_seed % 2 ^ 32 in
      may_contain_loop-Grows f.probe_count (delta_of h) f.bit_count h f.bits
        (add_loop f.probe_count (delta_of k) f.bit_count k f.bits)
        (add_loop-Grows f.probe_count (delta_of k) f.bit_count k f.bits) t

  may_contain-add_all_other :
      (key : Bytes) (keys : List Bytes) (f : BloomFilter)
      → may_contain murmur key f ≡ true
      → may_contain murmur key (add_all murmur keys f) ≡ true
  unfolding add_all
  may_contain-add_all_other key [] f t = t
  may_contain-add_all_other key (k ∷ keys) f t =
      may_contain-add_all_other key keys (add murmur k f) (may_contain-add_other key k f t)

  -- No false negatives: a filter that every one of these keys was added to, in whatever order and
  -- between whatever other keys, says of each of them that it may be there.
  pub may_contain-add_all :
      (keys : List Bytes) (f : BloomFilter)
      → IsValid f
      → All (λ key. may_contain murmur key (add_all murmur keys f) ≡ true) keys
  unfolding add_all
  may_contain-add_all [] f v = tt
  may_contain-add_all (key ∷ keys) f v = (
    may_contain-add_all_other key keys (add murmur key f) (may_contain-add key f v),
    may_contain-add_all keys (add murmur key f) (add-IsValid key f v),
  )

-- Adding keys changes only bits.
pub add_all-same_sizes :
    (murmur : Bytes → ℕ → ℕ) (keys : List Bytes) (f : BloomFilter)
    → ((add_all murmur keys f).bit_count ≡ f.bit_count)
      × ((add_all murmur keys f).probe_count ≡ f.probe_count)
      × (length (add_all murmur keys f).bits ≡ length f.bits)
unfolding add_all add
add_all-same_sizes murmur [] f = (refl, refl, refl)
add_all-same_sizes murmur (key ∷ keys) f =
    let (p, q, r) = add_all-same_sizes murmur keys (add murmur key f) in
    let h = murmur key bloom_filter_seed % 2 ^ 32 in
    (p, q, r ∙ length-add_loop f.probe_count (delta_of h) f.bit_count h f.bits)

pub length-zeros : (n : ℕ) → length (zeros n) ≡ n
unfolding zeros
length-zeros zero = refl
length-zeros (suc n) = ap suc (length-zeros n)

-- A filter of `n` bits, with `probes` or one.
abbrev pub sized : ℕ → ℕ → BloomFilter
sized n probes = record {
  bit_count = n % 2 ^ 64;
  bits = zeros ((n % 2 ^ 64 + 7) % 2 ^ 64 / 8);
  probe_count = if probes == 0 then 1 else probes;
}

sized-IsValid :
    (n probes : ℕ)
    → 0 < n
    → n + 7 < 2 ^ 64
    → IsValid (sized n probes)
      × ((sized n probes).bit_count ≡ n)
      × (0 < (sized n probes).probe_count)
sized-IsValid n probes p h =
    let same : n % 2 ^ 64 ≡ n = omega arith in
    (
      record {
        some_bits = omega arith;
        room = omega (arith, length-zeros ((n % 2 ^ 64 + 7) % 2 ^ 64 / 8));
      },
      same,
      ground arith,
    )

restore-same :
    (f : BloomFilter)
    → IsValid f
    → 0 < f.probe_count
    → restore f.bit_count f.probe_count f.bits ≡ some f
unfolding restore
restore-same f v p = ground (arith, v.some_bits, v.room)

pub make-some :
    (round_probes : ℕ → ℕ) (bits_per_key key_count : ℕ)
    → ((make round_probes bits_per_key key_count ≡ none) × (key_count ≡ 0 ⊎ bits_per_key ≡ 0))
      ⊎ ((make round_probes bits_per_key key_count
            ≡ some (sized (bits_per_key * key_count) (round_probes bits_per_key)))
          × (0 < bits_per_key * key_count))
unfolding make
make-some round_probes bits_per_key zero = inl (ground arith, inl refl)
make-some round_probes zero (suc k) = inl (ground arith, inr refl)
make-some round_probes (suc b) (suc k) = inr (ground arith, omega arith)

-- For sizes whose product, with the 7 that rounds it up to bytes, stays below 2^64, so that nothing
-- wraps round: the constructor refuses exactly the empty sizes; a filter that it makes has as many
-- bits as the product, a bit at least, a byte for each of its bits and at least one probe, and a
-- filter of its state that was read back from a file is that same filter.
pub make-IsValid :
    (round_probes : ℕ → ℕ) (bits_per_key key_count : ℕ)
    → bits_per_key * key_count + 7 < 2 ^ 64
    → ((make round_probes bits_per_key key_count ≡ none) ↔ ((key_count ≡ 0) ⊎ (bits_per_key ≡ 0)))
      × ((f : BloomFilter)
          → make round_probes bits_per_key key_count ≡ some f
          → IsValid f
            × (f.bit_count ≡ bits_per_key * key_count)
            × (0 < f.probe_count)
            × (restore f.bit_count f.probe_count f.bits ≡ some f))
make-IsValid round_probes bits_per_key key_count fits =
    elim (make-some round_probes bits_per_key key_count) [
      | inl (e, h) ↦ ((λ _. h, λ _. e), λ f k. absurd (cc (e, k)))
      | inr (e, h) ↦
          let s = sized (bits_per_key * key_count) (round_probes bits_per_key) in
          let (v, count, probes) =
            sized-IsValid (bits_per_key * key_count) (round_probes bits_per_key) h fits in
          (
            (λ k. absurd (cc (e, k)), λ z. absurd (no_product z h)),
            λ f k.
                subst
                  (λ (g : BloomFilter).
                    IsValid g
                    × (g.bit_count ≡ bits_per_key * key_count)
                    × (0 < g.probe_count)
                    × (restore g.bit_count g.probe_count g.bits ≡ some g))
                  (cc (e, k)) (v, count, probes, restore-same s v probes),
          )
    ]
  where
    no_product : (key_count ≡ 0) ⊎ (bits_per_key ≡ 0) → 0 < bits_per_key * key_count → ⊥
    no_product z p = ground arith

-- The sizes of a new filter, where none of them wraps.
pub make-sizes :
    (round_probes : ℕ → ℕ) (bits_per_key key_count : ℕ) (f : BloomFilter)
    → make round_probes bits_per_key key_count ≡ some f
    → bits_per_key * key_count < 2 ^ 32
    → round_probes bits_per_key < 2 ^ 32
    → (0 < f.bit_count)
      × (f.bit_count < 2 ^ 32)
      × (0 < f.probe_count)
      × (f.probe_count < 2 ^ 32)
      × (length f.bits ≡ (f.bit_count + 7) / 8)
      × IsValid f
make-sizes round_probes bits_per_key key_count f made fits probes =
    elim (make-some round_probes bits_per_key key_count) [
      | inl (e, h) ↦ absurd (cc (e, made))
      | inr (e, h) ↦
          let n = bits_per_key * key_count in
          let p = round_probes bits_per_key in
          let (v, count, some_probes) = sized-IsValid n p h (omega arith) in
          subst
            (λ (g : BloomFilter).
              (0 < g.bit_count)
              × (g.bit_count < 2 ^ 32)
              × (0 < g.probe_count)
              × (g.probe_count < 2 ^ 32)
              × (length g.bits ≡ (g.bit_count + 7) / 8)
              × IsValid g)
            (cc (e, made))
            (
              omega arith,
              omega arith,
              some_probes,
              ground arith,
              length-zeros ((n % 2 ^ 64 + 7) % 2 ^ 64 / 8) ∙ omega arith,
              v,
            )
    ]
