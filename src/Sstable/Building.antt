-- ===== src/Sstable/Building.antt =====
-- Every call of `add` that returns, and every flush of a block, keeps what the builder holds.
use kronos_engine.Prelude.{
  ℕ, ◌+◌, ◌^◌, ◌≤◌, ◌<◌, ◌≡◌, ◌≢◌, inl, inr, refl, sym, ap, ◌∙◌, List, [], ◌∷◌, ◌++◌, Bytes, length,
  append-nil, append_assoc, length-append, Result, ok, err, All-append, arith, false, subst,
  if◌then◌else◌,
}
use mathlib.Core.List.{map-append}
use kronos_engine.Types.{InternalEntry}
use kronos_engine.Io.{WriteReturn}
use kronos_engine.OrderedMap.{Map}
use kronos_engine.Sstable.Format.{
  SstableError, header, record_bytes, block_parts, write_failed, process_stopped,
}
use kronos_engine.Codec.{encode_to_le}
use kronos_engine.Sstable.Writing.{write_parts, write_parts-done, concat, Outcome-cases}
use kronos_engine.Sstable.Builder.{
  SstableBuilder, is_empty, start_block, flush_current_block, is_full, append_record, is_refused,
}
use kronos_engine.Sstable.Blocks.{block, records, records-append, length-record_bytes}
use kronos_engine.Sstable.Index.{contents}
use kronos_engine.Sstable.Layout.{
  first_key, blocks_bytes, blocks_bytes-append, index_of-append, contents-append, IsAscending-snoc,
  last_key-append, IsSome, Within, Holds,
}

-- The settings of a builder do not change.
pub record Same (b c : SstableBuilder) : Type 0 where
  pub target : c.target_block_size ≡ b.target_block_size
  pub bits : c.bits_per_key ≡ b.bits_per_key

pub not_both : (e : SstableError) (r : Result SstableError (Unit {0})) → r ≡ err e → r ≢ ok tt
not_both e r p q = cc

module _ (crc32 : Bytes → ℕ) where
  -- Some records are some bytes.
  records-some :
      (r : Bytes × InternalEntry) (rs : Map InternalEntry) → is_empty (records (r ∷ rs)) ≡ false
  unfolding records is_empty
  records-some r rs = some_bytes (record_bytes r) (length-record_bytes r)
    where
      some_bytes :
          (xs : Bytes)
          → length xs ≡ 17 + length r.0 + length r.1.value
          → is_empty (xs ++ records rs) ≡ false
      some_bytes [] h = absurd (omega arith)
      some_bytes (x ∷ xs) h = refl

  length-header_append : (xs : Bytes) → length (header ++ xs) ≡ 8 + length xs
  unfolding header encode_to_le
  length-header_append xs = omega arith

  start_block-Holds :
      (b : SstableBuilder) (all : Map InternalEntry) (blocks : List (Map InternalEntry))
      (r : Bytes × InternalEntry) (rs : Map InternalEntry)
      → Holds crc32 b all blocks (r ∷ rs)
      → Holds crc32 (start_block b (block crc32 (r ∷ rs))) all (blocks ++ (r ∷ rs) ∷ []) []
  unfolding start_block records first_key
  start_block-Holds b all blocks r rs h =
      let offset : length b.file ≡ 8 + length (blocks_bytes crc32 blocks) =
        ap length h.file_holds ∙ length-header_append (blocks_bytes crc32 blocks) in
      record {
        all_there =
            append-nil (contents (blocks ++ (r ∷ rs) ∷ []))
            ∙ contents-append blocks (r ∷ rs)
            ∙ h.all_there;
        file_holds =
            ap (λ f. f ++ block crc32 (r ∷ rs)) h.file_holds
            ∙ append_assoc header (blocks_bytes crc32 blocks) (block crc32 (r ∷ rs))
            ∙ ap (◌++◌ header) (sym (blocks_bytes-append crc32 blocks (r ∷ rs)));
        index_holds =
            rw (h.index_holds, h.first_holds, h.block_holds, offset)
              (sym (index_of-append crc32 8 blocks (r ∷ rs)));
        block_holds = refl;
        count_holds = refl;
        first_holds = refl;
        keys_hold = h.keys_hold;
        last_holds = h.last_holds;
        ascending = h.ascending;
        no_empty = All-append IsSome blocks ((r ∷ rs) ∷ []) h.no_empty (tt, tt);
        within = (
          All-append (Within b.target_block_size) blocks ((r ∷ rs) ∷ []) h.within.0
              (h.within.1, tt),
          inl (omega arith),
        );
      }

  flush-none :
      (b : SstableBuilder) (returns : List WriteReturn)
      → b.current_block ≡ []
      → flush_current_block crc32 b returns
        ≡ record { builder = b; result = ok tt; later = returns }
  unfolding flush_current_block is_empty
  flush-none b returns h = rw h refl

  flush-done :
      (b : SstableBuilder) (returns : List WriteReturn)
      → is_empty b.current_block ≡ false
      → (flush_current_block crc32 b returns).result ≡ ok tt
      → (flush_current_block crc32 b returns).builder
        ≡ start_block b (concat (block_parts crc32 b.current_block_record_count b.current_block))
  unfolding flush_current_block
  flush-done b returns some_block h =
      let parts = block_parts crc32 b.current_block_record_count b.current_block in
      elim (Outcome-cases (write_parts parts returns).outcome) [
        | inl e ↦ rw (some_block, e, write_parts-done parts returns e) refl
        | inr (inl e) ↦ absurd (
            not_both write_failed (flush_current_block crc32 b returns).result
              (rw (some_block, e) refl) h)
        | inr (inr e) ↦ absurd (
            not_both process_stopped (flush_current_block crc32 b returns).result
              (rw (some_block, e) refl) h)
      ]

  -- A flush that returns puts the pending records into a block of the file.
  pub flush_current_block-Holds :
      (b : SstableBuilder) (all : Map InternalEntry) (blocks : List (Map InternalEntry))
      (pending : Map InternalEntry) (returns : List WriteReturn)
      → Holds crc32 b all blocks pending
      → (flush_current_block crc32 b returns).result ≡ ok tt
      → (blocks' : List (Map InternalEntry)) × Holds crc32
          (flush_current_block crc32 b returns).builder
          all
          blocks'
          []
        × Same b (flush_current_block crc32 b returns).builder
  flush_current_block-Holds b all blocks [] returns h e =
      let same = flush-none b returns (h.block_holds ∙ (unfold records in refl)) in
      (blocks, rw same h, rw same (record { target = refl; bits = refl }))
  flush_current_block-Holds b all blocks (r ∷ rs) returns h e =
      let some_block : is_empty b.current_block ≡ false =
        ap is_empty h.block_holds ∙ records-some r rs in
      let same : (flush_current_block crc32 b returns).builder
          ≡ start_block b (block crc32 (r ∷ rs)) =
        flush-done b returns some_block e
        ∙ ap (start_block b) (unfold block in rw (h.count_holds, h.block_holds) refl) in
      (
        blocks ++ (r ∷ rs) ∷ [],
        rw same (start_block-Holds b all blocks r rs h),
        rw same (unfold start_block in record { target = refl; bits = refl }),
      )

  pub length-records_le :
      (blocks : List (Map InternalEntry)) (pending all : Map InternalEntry)
      → contents blocks ++ pending ≡ all
      → length (records pending) ≤ length (records all)
  length-records_le blocks pending all h = omega (
    arith,
    ap (λ m. length (records m)) h,
    ap length (records-append (contents blocks) pending),
    length-append (records (contents blocks)) (records pending),
  )

  room :
      (b : SstableBuilder) (bytes : Bytes) (n m : ℕ)
      → is_empty b.current_block ≡ false
      → length b.current_block ≡ n
      → m ≡ n + length bytes
      → is_full b bytes ≡ false
      → 8 + n + length bytes < 2 ^ 64
      → 8 + m ≤ b.target_block_size
  unfolding is_full
  room b bytes n m e l t f s = ground arith

  -- There was room: the block is empty, or it keeps within the target with the record.
  pub Within-append :
      (b : SstableBuilder) (pending : Map InternalEntry) (r : Bytes × InternalEntry)
      → b.current_block ≡ records pending
      → is_full b (record_bytes r) ≡ false
      → 8 + length (records pending) + length (record_bytes r) < 2 ^ 64
      → Within b.target_block_size (pending ++ r ∷ [])
  unfolding records
  Within-append b [] r h full size = inl (omega arith)
  Within-append b (s ∷ rs) r h full size =
      let some_block : is_empty b.current_block ≡ false = ap is_empty h ∙ records-some s rs in
      let long : length b.current_block ≡ length (records (s ∷ rs)) = ap length h in
      let total : length (records ((s ∷ rs) ++ r ∷ []))
          ≡ length (records (s ∷ rs)) + length (record_bytes r) =
        ap length (records-append (s ∷ rs) (r ∷ []))
        ∙ length-append (records (s ∷ rs)) (records (r ∷ []))
        ∙ ap (λ n. length (records (s ∷ rs)) + n) (one r) in
      inr (room b (record_bytes r) _ _ some_block long total full size)
    where
      one : (r : Bytes × InternalEntry) → length (records (r ∷ [])) ≡ length (record_bytes r)
      one r = ap length (append-nil (record_bytes r))

  pub append_record-Holds :
      (b : SstableBuilder) (all : Map InternalEntry) (blocks : List (Map InternalEntry))
      (pending : Map InternalEntry) (key : Bytes) (e : InternalEntry)
      → Holds crc32 b all blocks pending
      → is_refused b.last_key key ≡ false
      → Within b.target_block_size (pending ++ (key, e) ∷ [])
      → Holds crc32
          (append_record b key (record_bytes (key, e)))
          (all ++ (key, e) ∷ [])
          blocks
          (pending ++ (key, e) ∷ [])
  unfolding append_record first_key is_empty records
  append_record-Holds b all blocks pending key e h accepted w = record {
    all_there =
        sym (append_assoc (contents blocks) pending _) ∙ ap (λ m. m ++ (key, e) ∷ []) h.all_there;
    file_holds = h.file_holds;
    index_holds = h.index_holds;
    block_holds = ap (λ x. x ++ record_bytes (key, e)) h.block_holds ∙ last_record pending;
    count_holds = omega (arith, h.count_holds, length-append pending ((key, e) ∷ []));
    first_holds = first pending h.block_holds h.first_holds;
    keys_hold = ap (λ x. x ++ key ∷ []) h.keys_hold ∙ sym (map-append (λ r. r.0) all _);
    last_holds = sym (last_key-append all key e);
    ascending =
        IsAscending-snoc all key e h.ascending
          (subst (λ l. is_refused l key ≡ false) h.last_holds accepted);
    no_empty = h.no_empty;
    within = (h.within.0, w);
  }
    where
      last_record :
          (m : Map InternalEntry)
          → records m ++ record_bytes (key, e) ≡ records (m ++ (key, e) ∷ [])
      last_record m = sym (
          records-append m ((key, e) ∷ [])
          ∙ ap (◌++◌ (records m)) (append-nil (record_bytes (key, e))))

      first :
          (m : Map InternalEntry)
          → b.current_block ≡ records m
          → b.current_block_first_key ≡ first_key m
          → (if is_empty b.current_block then key else b.current_block_first_key)
            ≡ first_key (m ++ (key, e) ∷ [])
      first [] p q = rw p refl
      first (r ∷ rs) p q =
          let some_block : is_empty b.current_block ≡ false = ap is_empty p ∙ records-some r rs in
          rw some_block q
