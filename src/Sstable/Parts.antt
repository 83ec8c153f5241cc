-- ===== src/Sstable/Parts.antt =====
-- The header, the Bloom filter, the index and the footer of a table read back as they were written.
use kronos_engine.Prelude.{
  ℕ, zero, suc, ◌+◌, ◌-◌, ◌*◌, ◌/◌, ◌^◌, ◌≤◌, ◌<◌, ◌≡◌, refl, sym, ap, ◌∙◌, List, [], ◌∷◌, ◌++◌,
  Bytes, length, take, drop, take-length_append, drop-length_append, compare_bytes, append-nil,
  append_assoc, length-append, ok, All, arith, leb, true,
}
use kronos_engine.Codec.{encode_to_le, decode_from_le, decode-encode, length-encode_to_le}
use kronos_engine.Wal.Format.{checksum}
use kronos_engine.Bloom.{BloomFilter, restore}
use kronos_engine.Sstable.Format.{
  SstableError, SparseIndexEntry, header, magic, version, seal, bloom_block, index_entry,
  index_entries, index_block, footer_parts, filter_mismatch, corrupted_index, index_mismatch,
}
use kronos_engine.Sstable.Writing.{concat}
use kronos_engine.Sstable.Reader.{
  FooterInfo, read_at, unseal, read_header, read_footer, restore_filter, load_bloom_filter,
  parse_index_entries, parse_index, load_sparse_index,
}
use kronos_engine.Sstable.Fields.{
  field-append, read_at-middle, unseal-stored, EntryFits, parse_index_entry-index_entry,
}

take_exact : (n : ℕ) (xs ys : Bytes) → length xs ≡ n → take n (xs ++ ys) ≡ xs
take_exact n xs ys h = rw (← h) (take-length_append xs ys)

drop_exact : (n : ℕ) (xs ys : Bytes) → length xs ≡ n → drop n (xs ++ ys) ≡ ys
drop_exact n xs ys h = rw (← h) (drop-length_append xs ys)

drop_past : (m n : ℕ) (xs ys : Bytes) → length xs ≡ m → drop (m + n) (xs ++ ys) ≡ drop n ys
drop_past m n [] ys h = let e : m + n ≡ n = omega arith in ap (λ k. drop k ys) e
drop_past zero n (x ∷ xs) ys h = absurd (omega arith)
drop_past (suc m) n (x ∷ xs) ys h =
    let e : suc m + n ≡ suc (m + n) = omega arith in
    ap (λ k. drop k (x ∷ (xs ++ ys))) e ∙ drop_past m n xs ys (omega arith)

-- An integer of eight bytes behind others.
decode_here :
    (n : ℕ) (ys : Bytes) → n < 2 ^ 64 → decode_from_le (take 8 (encode_to_le 8 n ++ ys)) ≡ n
decode_here n ys h =
    ap decode_from_le (take_exact 8 (encode_to_le 8 n) ys (length-encode_to_le 8 n))
    ∙ decode-encode 8 n h

pub read_header-header : (behind : Bytes) → read_header (header ++ behind) ≡ ok tt
unfolding read_header header compare_bytes
read_header-header behind =
    let v = encode_to_le 4 version in
    let first : read_at 0 4 (magic ++ (v ++ behind)) ≡ ok magic =
      read_at-middle [] magic (v ++ behind) in
    let second : read_at 4 4 (magic ++ (v ++ behind)) ≡ ok v =
      ap (λ n. read_at 4 n (magic ++ (v ++ behind))) (sym (length-encode_to_le 4 version))
      ∙ read_at-middle magic v behind in
    ap read_header {y = magic ++ (v ++ behind)} (append_assoc magic v behind)
    ∙ rw (first, second, decode-encode 4 version (omega arith)) refl

unseal-seal :
    (crc32 : Bytes → ℕ) (e : SstableError) (payload : Bytes)
    → unseal crc32 e (seal crc32 payload) ≡ ok payload
unfolding seal
unseal-seal crc32 e payload = unseal-stored crc32 e payload

length-seal :
    (crc32 : Bytes → ℕ) (payload : Bytes) → length (seal crc32 payload) ≡ length payload + 4
unfolding seal
length-seal crc32 payload = simp (length-append, length-encode_to_le)

-- A filter whose counts fit in the format, and whose bytes are as many as its bits want.
pub record FilterFits (f : BloomFilter) : Type 0 where
  pub some_bits : 0 < f.bit_count
  pub bits_fit : f.bit_count < 2 ^ 32
  pub some_probes : 0 < f.probe_count
  pub probes_fit : f.probe_count < 2 ^ 32
  pub packed : length f.bits ≡ (f.bit_count + 7) / 8

restore_filter-same :
    (f : BloomFilter) → FilterFits f → restore_filter f.bit_count f.probe_count f.bits ≡ ok f
unfolding restore_filter restore
restore_filter-same f h = some_bytes f.bits refl
  where
    some_bytes :
        (bits : Bytes) → f.bits ≡ bits → restore_filter f.bit_count f.probe_count f.bits ≡ ok f
    some_bytes [] e = absurd (omega (arith, h.packed, h.some_bits, ap length e))
    some_bytes (b ∷ bs) e = ground (arith, h.packed, h.some_bits, h.some_probes)

pub length-bloom_block :
    (crc32 : Bytes → ℕ) (f : BloomFilter) → length (bloom_block crc32 f) ≡ 12 + length f.bits
unfolding bloom_block
length-bloom_block crc32 f = omega (
  arith,
  length-seal crc32 (encode_to_le 4 f.bit_count ++ (encode_to_le 4 f.probe_count ++ f.bits)),
  length-append (encode_to_le 4 f.bit_count) (encode_to_le 4 f.probe_count ++ f.bits),
  length-append (encode_to_le 4 f.probe_count) f.bits,
  length-encode_to_le 4 f.bit_count,
  length-encode_to_le 4 f.probe_count,
)

module _ (crc32 : Bytes → ℕ) (before behind : Bytes) where
  pub load_bloom_filter-block :
      (f : BloomFilter)
      → FilterFits f
      → load_bloom_filter crc32
          (length before)
          (length (bloom_block crc32 f))
          (before ++ (bloom_block crc32 f ++ behind))
        ≡ ok f
  unfolding load_bloom_filter bloom_block
  load_bloom_filter-block f h =
      let a = encode_to_le 4 f.bit_count in
      let b = encode_to_le 4 f.probe_count in
      let payload = a ++ (b ++ f.bits) in
      let la : length a ≡ 4 = length-encode_to_le 4 f.bit_count in
      let lb : length b ≡ 4 = length-encode_to_le 4 f.probe_count in
      let long : leb 12 (length (seal crc32 payload)) ≡ true =
        ground (
          arith,
          length-seal crc32 payload,
          length-append a (b ++ f.bits),
          length-append b f.bits,
        ) in
      let eight : drop 8 payload ≡ f.bits =
        ap (drop 8) (sym (append_assoc a b f.bits))
        ∙ drop_exact 8 (a ++ b) f.bits (omega (arith, length-append a b)) in
      rw
        (
          long,
          read_at-middle before (seal crc32 payload) behind,
          unseal-seal crc32 filter_mismatch payload,
          take_exact 4 a (b ++ f.bits) la,
          drop_exact 4 a (b ++ f.bits) la,
          take_exact 4 b f.bits lb,
          eight,
          decode-encode 4 f.bit_count h.bits_fit,
          decode-encode 4 f.probe_count h.probes_fit,
        )
        (restore_filter-same f h)

index_entries-append :
    (es : List SparseIndexEntry)
    → All EntryFits es
    → parse_index_entries (length es) (index_entries es) ≡ ok es
unfolding parse_index_entries index_entries
index_entries-append [] f = refl
index_entries-append (e ∷ es) f =
    rw (parse_index_entry-index_entry e (index_entries es) f.0, index_entries-append es f.1) refl

pub length-index_entry : (e : SparseIndexEntry) → length (index_entry e) ≡ 16 + length e.first_key
unfolding index_entry
length-index_entry e = simp (length-append, length-encode_to_le) (omega arith)

pub length-index_entries : (es : List SparseIndexEntry) → 16 * length es ≤ length (index_entries es)
unfolding index_entries
length-index_entries [] = omega arith
length-index_entries (e ∷ es) = omega (
  arith,
  length-index_entries es,
  length-append (index_entry e) (index_entries es),
  length-index_entry e,
)

pub length-index_block :
    (crc32 : Bytes → ℕ) (es : List SparseIndexEntry)
    → length (index_block crc32 es) ≡ 8 + length (index_entries es)
unfolding index_block
length-index_block crc32 es = omega (
  arith,
  length-seal crc32 (encode_to_le 4 (length es) ++ index_entries es),
  length-append (encode_to_le 4 (length es)) (index_entries es),
  length-encode_to_le 4 (length es),
)

parse_index-entries :
    (es : List SparseIndexEntry)
    → All EntryFits es
    → length es < 2 ^ 32
    → parse_index (encode_to_le 4 (length es) ++ index_entries es) ≡ ok es
unfolding parse_index
parse_index-entries es f size =
    let room : leb (length es) (length (index_entries es) / 16) ≡ true =
      ground (arith, length-index_entries es) in
    rw
      (
        field-append corrupted_index 4 (encode_to_le 4 (length es)) (index_entries es)
            (length-encode_to_le 4 (length es)),
        decode-encode 4 (length es) size,
        room,
      )
      (index_entries-append es f)

module _ (crc32 : Bytes → ℕ) (before behind : Bytes) where
  pub load_sparse_index-block :
      (es : List SparseIndexEntry)
      → All EntryFits es
      → length es < 2 ^ 32
      → load_sparse_index crc32
          (length before)
          (length (index_block crc32 es))
          (before ++ (index_block crc32 es ++ behind))
        ≡ ok es
  unfolding load_sparse_index
  load_sparse_index-block es f size =
      let long : leb 8 (length (index_block crc32 es)) ≡ true =
        ground (arith, length-index_block crc32 es) in
      let payload : Bytes = encode_to_le 4 (length es) ++ index_entries es in
      let opened : unseal crc32 index_mismatch (index_block crc32 es) ≡ ok payload =
        unfold index_block in unseal-seal crc32 index_mismatch payload in
      rw (long, read_at-middle before (index_block crc32 es) behind, opened)
        (parse_index-entries es f size)

-- The four fields of the footer.
pub record FooterFits (i : FooterInfo) : Type 0 where
  pub bloom_offset_fits : i.bloom_offset < 2 ^ 64
  pub bloom_size_fits : i.bloom_size < 2 ^ 64
  pub index_offset_fits : i.index_offset < 2 ^ 64
  pub index_size_fits : i.index_size < 2 ^ 64

unfoldable pub footer : (Bytes → ℕ) → FooterInfo → Bytes
footer crc32 i = concat (footer_parts crc32 i.bloom_offset i.bloom_size i.index_offset i.index_size)

module _ (crc32 : Bytes → ℕ) (i : FooterInfo) where
  fields : Bytes
  fields =
      encode_to_le 8 i.bloom_offset
      ++ (encode_to_le 8 i.bloom_size
          ++ (encode_to_le 8 i.index_offset ++ encode_to_le 8 i.index_size))

  footer-fields : footer crc32 i ≡ fields ++ encode_to_le 4 (checksum crc32 fields)
  unfolding footer fields footer_parts concat
  footer-fields = simp (append_assoc, append-nil)

  regroup :
      (s : Bytes)
      → fields ++ s
        ≡ encode_to_le 8 i.bloom_offset
          ++ (encode_to_le 8 i.bloom_size
              ++ (encode_to_le 8 i.index_offset ++ (encode_to_le 8 i.index_size ++ s)))
  unfolding fields
  regroup s = simp append_assoc

  length-fields : length fields ≡ 32
  unfolding fields
  length-fields = simp (length-append, length-encode_to_le) (omega arith)

  pub length-footer : length (footer crc32 i) ≡ 36
  length-footer =
      ap length footer-fields
      ∙ omega (
        arith,
        length-fields,
        length-append fields (encode_to_le 4 (checksum crc32 fields)),
        length-encode_to_le 4 (checksum crc32 fields),
      )

  pub read_footer-footer :
      (before : Bytes) → FooterFits i → read_footer crc32 (before ++ footer crc32 i) ≡ ok i
  unfolding read_footer
  read_footer-footer before f =
      let a = encode_to_le 8 i.bloom_offset in
      let b = encode_to_le 8 i.bloom_size in
      let c = encode_to_le 8 i.index_offset in
      let d = encode_to_le 8 i.index_size in
      let s = encode_to_le 4 (checksum crc32 fields) in
      let la : length a ≡ 8 = length-encode_to_le 8 i.bloom_offset in
      let lb : length b ≡ 8 = length-encode_to_le 8 i.bloom_size in
      let lc : length c ≡ 8 = length-encode_to_le 8 i.index_offset in
      let start : length (before ++ footer crc32 i) - 36 ≡ length before =
        omega (arith, length-append before (footer crc32 i), length-footer) in
      let here : read_at (length before) 36 (before ++ footer crc32 i) ≡ ok (fields ++ s) =
        ap (λ n. read_at (length before) n (before ++ footer crc32 i)) (sym length-footer)
        ∙ ap (λ x. read_at (length before) (length (footer crc32 i)) (before ++ x))
            (sym (append-nil (footer crc32 i)))
        ∙ read_at-middle before (footer crc32 i) []
        ∙ ap ok footer-fields in
      rw
        (
          start,
          here,
          take_exact 32 fields s length-fields,
          drop_exact 32 fields s length-fields,
          decode-encode 4 (checksum crc32 fields) (omega arith),
          regroup s,
          decode_here i.bloom_offset (b ++ (c ++ (d ++ s))) f.bloom_offset_fits,
          drop_past 8 0 a (b ++ (c ++ (d ++ s))) la,
          drop_past 8 8 a (b ++ (c ++ (d ++ s))) la,
          drop_past 8 16 a (b ++ (c ++ (d ++ s))) la,
          drop_past 8 0 b (c ++ (d ++ s)) lb,
          drop_past 8 8 b (c ++ (d ++ s)) lb,
          drop_past 8 0 c (d ++ s) lc,
          decode_here i.bloom_size (c ++ (d ++ s)) f.bloom_size_fits,
          decode_here i.index_offset (d ++ s) f.index_offset_fits,
          decode_here i.index_size s f.index_size_fits,
        )
        (ground arith)
