-- ===== src/Sstable/Adding.antt =====
-- `add`, called for entry after entry: where it returns, the builder holds the entries.
use kronos_engine.Prelude.{
  ℕ, ◌+◌, ◌^◌, ◌≤◌, ◌<◌, ◌≡◌, refl, sym, ap, ◌∙◌, List, [], ◌∷◌, ◌++◌, Bytes, length, append-nil,
  append_assoc, length-append, Bool-cases, Result-cases, ok, err, arith, true, false, subst, inl,
  inr,
}
use kronos_engine.Types.{InternalEntry}
use kronos_engine.Io.{WriteReturn}
use kronos_engine.OrderedMap.{Map}
use kronos_engine.Sstable.Format.{record_bytes, keys_not_increasing}
use kronos_engine.Sstable.Builder.{
  SstableBuilder, Progress, flush_current_block, is_full, append_record, is_refused, add_entry,
  make_room, add_entries,
}
use kronos_engine.Sstable.Blocks.{records, records-append}
use kronos_engine.Sstable.Layout.{IsBuilder}
use kronos_engine.Sstable.Building.{
  Same, not_both, flush_current_block-Holds, append_record-Holds, Within-append, length-records_le,
}

-- What a call leaves, where it returns.
pub record Added (crc32 : Bytes → ℕ) (b : SstableBuilder) (all : Map InternalEntry) (p : Progress)
    : Type 0 where
  pub built : IsBuilder crc32 p.builder all
  pub same : Same b p.builder

module _ (crc32 : Bytes → ℕ) where
  -- The three ways of a call of `add`.
  add-refused :
      (b : SstableBuilder) (r : Bytes × InternalEntry) (returns : List WriteReturn)
      → is_refused b.last_key r.0 ≡ true
      → (add_entry crc32 b r returns).result ≡ err keys_not_increasing
  unfolding add_entry
  add-refused b (key, e) returns h = rw h refl

  add-accepted :
      (b : SstableBuilder) (r : Bytes × InternalEntry) (returns : List WriteReturn)
      → is_refused b.last_key r.0 ≡ false
      → (add_entry crc32 b r returns).result ≡ ok tt
      → ((make_room crc32 b (record_bytes r) returns).result ≡ ok tt)
        × ((add_entry crc32 b r returns).builder
            ≡ append_record
                (make_room crc32 b (record_bytes r) returns).builder
                r.0
                (record_bytes r))
  unfolding add_entry
  add-accepted b (key, e) returns h done =
      elim (Result-cases (make_room crc32 b (record_bytes (key, e)) returns).result) [
        | inl (u, f) ↦ (f, rw (h, f) refl)
        | inr (thrown, f) ↦
            absurd (not_both thrown (add_entry crc32 b (key, e) returns).result (rw (h, f) f) done)
      ]

  -- Room was made, or was there: the builder then holds the same entries.
  make_room-spare :
      (b : SstableBuilder) (bytes : Bytes) (returns : List WriteReturn)
      → is_full b bytes ≡ false
      → make_room crc32 b bytes returns ≡ record { builder = b; result = ok tt; later = returns }
  unfolding make_room
  make_room-spare b bytes returns h = rw h refl

  make_room-full :
      (b : SstableBuilder) (bytes : Bytes) (returns : List WriteReturn)
      → is_full b bytes ≡ true
      → make_room crc32 b bytes returns ≡ flush_current_block crc32 b returns
  unfolding make_room
  make_room-full b bytes returns h = rw h refl

  size_of_one :
      (m : Map InternalEntry) (r : Bytes × InternalEntry)
      → length (records (m ++ r ∷ [])) ≡ length (records m) + length (record_bytes r)
  unfolding records
  size_of_one m r =
      ap length (records-append m (r ∷ []))
      ∙ length-append (records m) (record_bytes r ++ [])
      ∙ ap (λ x. length (records m) + length x) (append-nil (record_bytes r))

  add_entry-Added :
      (b : SstableBuilder) (all : Map InternalEntry) (r : Bytes × InternalEntry)
      (returns : List WriteReturn)
      → IsBuilder crc32 b all
      → 8 + length (records (all ++ r ∷ [])) < 2 ^ 64
      → (add_entry crc32 b r returns).result ≡ ok tt
      → Added crc32 b (all ++ r ∷ []) (add_entry crc32 b r returns)
  add_entry-Added b all (key, e) returns built size done =
      let r : Bytes × InternalEntry = (key, e) in
      let h = built.holds in
      elim (Bool-cases (is_refused b.last_key key)) [
        | inl refused ↦ absurd (
            not_both keys_not_increasing (add_entry crc32 b r returns).result
              (add-refused b r returns refused) done)
        | inr accepted ↦
            let (made, same) = add-accepted b r returns accepted done in
            elim (Bool-cases (is_full b (record_bytes r))) [
              | inr spare ↦
                  let same =
                    same
                    ∙ ap (λ (q : Progress). append_record q.builder key (record_bytes r))
                        (make_room-spare b (record_bytes r) returns spare) in
                  let fits : 8 + length (records built.pending) + length (record_bytes r) < 2 ^ 64 =
                    omega (
                      arith,
                      size_of_one all r,
                      length-records_le crc32 built.blocks built.pending all h.all_there,
                    ) in
                  record {
                    built = record {
                      blocks = built.blocks;
                      pending = built.pending ++ r ∷ [];
                      holds = rw same (
                          append_record-Holds crc32 b all built.blocks built.pending key e h
                            accepted
                            (Within-append crc32 b built.pending r h.block_holds spare fits));
                    };
                    same = rw same (unfold append_record in record { target = refl; bits = refl });
                  }
              | inl full ↦
                  let way = make_room-full b (record_bytes r) returns full in
                  let same =
                    same
                    ∙ ap (λ (q : Progress). append_record q.builder key (record_bytes r)) way in
                  let flushed = ap (λ (q : Progress). q.result) (sym way) ∙ made in
                  let (blocks', holds, kept) =
                    flush_current_block-Holds crc32 b all built.blocks built.pending returns h
                      flushed in
                  let c = (flush_current_block crc32 b returns).builder in
                  let still : is_refused c.last_key key ≡ false =
                    subst (λ l. is_refused l key ≡ false) (h.last_holds ∙ sym holds.last_holds)
                      accepted in
                  record {
                    built = record {
                      blocks = blocks';
                      pending = r ∷ [];
                      holds = rw same (
                          append_record-Holds crc32 c all blocks' [] key e holds still
                            (inl (omega arith)));
                    };
                    same =
                        rw same (
                          unfold append_record in
                          record { target = kept.target; bits = kept.bits });
                  }
            ]
      ]

  step :
      (b : SstableBuilder) (r : Bytes × InternalEntry) (rs : Map InternalEntry)
      (returns : List WriteReturn)
      → (add_entries crc32 b (r ∷ rs) returns).result ≡ ok tt
      → ((add_entry crc32 b r returns).result ≡ ok tt)
        × (add_entries crc32 b (r ∷ rs) returns
            ≡ add_entries crc32
                (add_entry crc32 b r returns).builder
                rs
                (add_entry crc32 b r returns).later)
  unfolding add_entries
  step b r rs returns done = elim (Result-cases (add_entry crc32 b r returns).result) [
    | inl (u, f) ↦ (f, rw (add_entries, f) refl)
    | inr (thrown, f) ↦
        absurd (
          not_both thrown (add_entries crc32 b (r ∷ rs) returns).result (rw (add_entries, f) f)
            done)
  ]

  -- `add` for a list of entries, on a builder that holds some already.
  pub add_entries-Added :
      (b : SstableBuilder) (all rs : Map InternalEntry) (returns : List WriteReturn)
      → IsBuilder crc32 b all
      → 8 + length (records (all ++ rs)) < 2 ^ 64
      → (add_entries crc32 b rs returns).result ≡ ok tt
      → Added crc32 b (all ++ rs) (add_entries crc32 b rs returns)
  add_entries-Added b all [] returns built size done =
      rw (append-nil all) (
        unfold add_entries in
        record { built = built; same = record { target = refl; bits = refl } })
  add_entries-Added b all (r ∷ rs) returns built size done =
      let (first, same) = step b r rs returns done in
      let p = add_entry crc32 b r returns in
      let regroup : (all ++ r ∷ []) ++ rs ≡ all ++ r ∷ rs = append_assoc all (r ∷ []) rs in
      let whole : length (records ((all ++ r ∷ []) ++ rs)) ≡ length (records (all ++ r ∷ rs)) =
        ap (λ m. length (records m)) regroup in
      let part : length (records (all ++ r ∷ [])) ≤ length (records ((all ++ r ∷ []) ++ rs)) =
        omega (
          arith,
          ap length (records-append (all ++ r ∷ []) rs),
          length-append (records (all ++ r ∷ [])) (records rs),
        ) in
      let one = add_entry-Added b all r returns built (omega (arith, whole, part)) first in
      let all_of =
        add_entries-Added p.builder (all ++ r ∷ []) rs p.later one.built (omega (arith, whole))
          (ap (λ (q : Progress). q.result) (sym same) ∙ done) in
      rw same (
        subst (λ m. Added crc32 b m (add_entries crc32 p.builder rs p.later)) regroup
          (record {
            built = all_of.built;
            same = record {
              target = all_of.same.target ∙ one.same.target;
              bits = all_of.same.bits ∙ one.same.bits;
            };
          }))
