-- ===== src/Wal/Opening.antt =====
-- The two branches of the constructor of `Wal` (src/wal.cpp): a file that the one creates is opened
-- by the other.
use kronos_engine.Prelude.{
  ℕ, zero, suc, ◌≡◌, ◌≢◌, ◌<◌, Bool, true, refl, ap, ap₂, ◌∙◌, sym, ok, err, List, [], ◌∷◌, ◌++◌,
  Bytes, compare_bytes, length, take, length-append, take-length_append, append_assoc, append-nil,
  arith,
}
use kronos_engine.Io.{
  WriteReturn, FsyncReturn, Outcome, done, threw, stopped, write_loop, write_loop-front,
}
use kronos_engine.Wal.Format.{magic, version, header}
use kronos_engine.Wal.Scan.{invalid_header}
use kronos_engine.Wal.Log.{Wal, after_io, write_both, create, open_existing}

write_both-front :
    (first second : Bytes) (returns : List WriteReturn)
    → (rest : Bytes) × (first ++ second ≡ (write_both first second returns).bytes ++ rest)
      × ((write_both first second returns).outcome ≡ done → rest ≡ [])
unfolding write_both
write_both-front first second returns = go (write_loop first returns).outcome refl
  where
    go :
        (o : Outcome)
        → (write_loop first returns).outcome ≡ o
        → (rest : Bytes) × (first ++ second ≡ (write_both first second returns).bytes ++ rest)
          × ((write_both first second returns).outcome ≡ done → rest ≡ [])
    go done e =
        let (rest, cut, whole) = write_loop-front second (write_loop first returns).later in
        let (rest₁, cut₁, whole₁) = write_loop-front first returns in
        let one = cut₁ ∙ ap (◌++◌ (write_loop first returns).bytes) (whole₁.0 e) ∙ append-nil _ in
        (
          rest,
          rw (e, write_both)
              (ap₂ ◌++◌ one cut ∙ sym (append_assoc (write_loop first returns).bytes _ rest)),
          rw (e, write_both) whole.0,
        )
    go threw e =
        let (rest, cut, whole) = write_loop-front first returns in
        (
          rest ++ second,
          rw (e, write_both) (ap (λ xs. xs ++ second) cut ∙ append_assoc _ rest second),
          rw (e, write_both) (λ h. absurd (cc (e, h))),
        )
    go stopped e =
        let (rest, cut, whole) = write_loop-front first returns in
        (
          rest ++ second,
          rw (e, write_both) (ap (λ xs. xs ++ second) cut ∙ append_assoc _ rest second),
          rw (e, write_both) (λ h. absurd (cc (e, h))),
        )

-- The log that a whole header opens as.
abbrev pub fresh : Wal
fresh = record { file = header; position = 5; next_sequence = 0; linked = true }

open_existing-short : (n : ℕ) → n < 5 → open_existing (take n header) ≡ err invalid_header
unfolding open_existing compare_bytes
open_existing-short zero h = refl
open_existing-short (suc zero) h = refl
open_existing-short (suc (suc zero)) h = refl
open_existing-short (suc (suc (suc zero))) h = refl
open_existing-short (suc (suc (suc (suc zero)))) h = refl
open_existing-short (suc (suc (suc (suc (suc n))))) h = absurd (omega arith)

open_existing-front :
    (file rest : Bytes)
    → header ≡ file ++ rest
    → rest ≢ []
    → open_existing file ≡ err invalid_header
open_existing-front file [] e ne = absurd (ne refl)
open_existing-front file (b ∷ rest) e ne =
    ap open_existing (sym (take-length_append file (b ∷ rest)) ∙ ap (take (length file)) (sym e))
    ∙ open_existing-short (length file) (omega (arith, ap length e, length-append file (b ∷ rest)))

-- The constructor returns only where the whole header was written.
create-ok :
    (writes : List WriteReturn) (syncs : List FsyncReturn) (parent_synced : Bool) (w : Wal)
    → (create writes syncs parent_synced).1 ≡ ok w
    → ((write_both magic (version ∷ []) writes).outcome ≡ done)
      × (w ≡ record {
        file = (create writes syncs parent_synced).0;
        position = length (create writes syncs parent_synced).0;
        next_sequence = 0;
        linked = true;
      })
unfolding create after_io
create-ok writes syncs parent_synced w h = ground arith

create-file :
    (writes : List WriteReturn) (syncs : List FsyncReturn) (parent_synced : Bool)
    → (create writes syncs parent_synced).0 ≡ (write_both magic (version ∷ []) writes).bytes
unfolding create
create-file writes syncs parent_synced = refl

open_existing-header : open_existing header ≡ ok fresh
unfolding open_existing compare_bytes
open_existing-header = refl

-- The log that a new path opens as can be opened again: if the constructor returns, it returns the
-- empty log, and the path then opens as that same log. In any case the path holds a front of the
-- header, and unless that is the whole header, it does not open any more.
pub create-open_existing :
    (writes : List WriteReturn) (syncs : List FsyncReturn) (parent_synced : Bool)
    → let (file, result) = create writes syncs parent_synced in
      ((w : Wal) → result ≡ ok w → (w ≡ fresh) × (open_existing file ≡ ok w))
      × ((rest : Bytes) × (header ≡ file ++ rest)
          × (rest ≢ [] → open_existing file ≡ err invalid_header))
create-open_existing writes syncs parent_synced =
    let (rest, cut, whole) = write_both-front magic (version ∷ []) writes in
    let file : Bytes = (create writes syncs parent_synced).0 in
    let split : header ≡ file ++ rest =
      cut ∙ ap (λ f. f ++ rest) (sym (create-file writes syncs parent_synced)) in
    (
      λ w h.
          let (finished, same) = create-ok writes syncs parent_synced w h in
          let full : file ≡ header =
            sym (split ∙ ap (◌++◌ file) (whole finished) ∙ append-nil file) in
          let is_fresh : w ≡ fresh =
            same
            ∙ ap
                (λ (f : Bytes). record {
                  file = f;
                  position = length f;
                  next_sequence = 0;
                  linked = true;
                })
                full in
          (is_fresh, ap open_existing full ∙ open_existing-header ∙ sym (ap ok is_fresh)),
      (rest, split, open_existing-front file rest split),
    )
