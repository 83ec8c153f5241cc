-- ===== src/Bloom/Examples.antt =====
-- The theorems on the filter, with a hash that adds the bytes of the key and seven probes.
use kronos_engine.Prelude.{
  ℕ, ◌+◌, ◌*◌, ◌^◌, ◌<◌, ◌≡◌, ◌⊎◌, ◌↔◌, refl, true, none, some, List, [], ◌∷◌, Bytes, All, arith,
}
use kronos_engine.Bloom.{BloomFilter, make, restore, may_contain, zeros}
use kronos_engine.Bloom.Membership.{IsValid, add_all, may_contain-add_all, make-IsValid}

abbrev byte_hash : Bytes → ℕ → ℕ
byte_hash [] seed = seed
byte_hash (b ∷ bs) seed = b + byte_hash bs seed

abbrev empty : BloomFilter
empty = record { bit_count = 20; bits = 0 ∷ 0 ∷ 0 ∷ []; probe_count = 7 }

empty-IsValid : IsValid empty
empty-IsValid = record { some_bits = omega arith; room = omega arith }

abbrev two : ℕ
two = 2

abbrev ten : ℕ
ten = 10

abbrev keys : List Bytes
keys = (97 ∷ []) ∷ (98 ∷ 99 ∷ []) ∷ []

may_contain-add_all_example :
    All (λ key. may_contain byte_hash key (add_all byte_hash keys empty) ≡ true) keys
may_contain-add_all_example = may_contain-add_all byte_hash keys empty empty-IsValid

make-IsValid_example :
    ((make (λ n. 7) 10 2 ≡ none) ↔ ((two ≡ 0) ⊎ (ten ≡ 0)))
    × ((f : BloomFilter)
        → make (λ n. 7) 10 2 ≡ some f
        → IsValid f
          × (f.bit_count ≡ 10 * 2)
          × (0 < f.probe_count)
          × (restore f.bit_count f.probe_count f.bits ≡ some f))
make-IsValid_example = make-IsValid (λ n. 7) 10 2 (omega arith)

-- Where the size wraps round to nothing: the filter that is made has no bit, and is not restored.
abbrev wrapped : BloomFilter
wrapped = record { bit_count = 0; bits = []; probe_count = 7 }

make-wrapped : make (λ n. 7) (2 ^ 63) 2 ≡ some wrapped
unfolding make zeros
make-wrapped = refl

restore-wrapped : restore 0 7 [] ≡ none
unfolding restore
restore-wrapped = refl
