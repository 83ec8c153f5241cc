-- ===== src/Sstable/Writing.antt =====
-- `write_all` of src/sstable.cpp, which, unlike the loop of the log, gives up when a call is
-- interrupted; and several calls of it in a row.
use kronos_engine.Prelude.{
  zero, suc, ◌≡◌, refl, ap, ◌∙◌, List, [], ◌∷◌, ◌++◌, Bytes, take, drop, take-append-drop, ◌⊎◌, inl,
  inr, arith,
}
use kronos_engine.Io.{WriteReturn, wrote, Outcome, done, threw, stopped, Written}

abbrev pub after : Bytes → Written → Written
after front w = record w { bytes = front ++ w.bytes }

-- `while (written < size) write(...)`, on the bytes that are left.
unfoldable pub write_all : Bytes → List WriteReturn → Written
write_all [] returns = record { bytes = []; outcome = done; later = returns }
write_all (b ∷ bs) [] = record { bytes = []; outcome = stopped; later = [] }
write_all (b ∷ bs) (WriteReturn.interrupted ∷ returns) = record {
  bytes = [];
  outcome = threw;
  later = returns;
}
write_all (b ∷ bs) (WriteReturn.error ∷ returns) = record {
  bytes = [];
  outcome = threw;
  later = returns;
}
write_all (b ∷ bs) (wrote zero ∷ returns) = record { bytes = []; outcome = threw; later = returns }
write_all (b ∷ bs) (wrote (suc n) ∷ returns) = after (b ∷ take n bs) (write_all (drop n bs) returns)

-- Calls of `write_all` in a row: the first that does not end is the last.
unfoldable pub write_parts : List Bytes → List WriteReturn → Written
write_parts [] returns = record { bytes = []; outcome = done; later = returns }
write_parts (part ∷ parts) returns =
    let w = write_all part returns in
    let others = write_parts parts w.later in
    elim w.outcome [ done ↦ after w.bytes others | threw ↦ w | stopped ↦ w ]

unfoldable pub concat : List Bytes → Bytes
concat [] = []
concat (p ∷ ps) = p ++ concat ps

-- A loop that ends has written its data.
write_all-done :
    (bytes : Bytes) (returns : List WriteReturn)
    → (write_all bytes returns).outcome ≡ done
    → (write_all bytes returns).bytes ≡ bytes
unfolding write_all
write_all-done [] returns h = refl
write_all-done (b ∷ bs) [] h = cc
write_all-done (b ∷ bs) (WriteReturn.interrupted ∷ returns) h = cc
write_all-done (b ∷ bs) (WriteReturn.error ∷ returns) h = cc
write_all-done (b ∷ bs) (wrote zero ∷ returns) h = cc
write_all-done (b ∷ bs) (wrote (suc n) ∷ returns) h =
    ap (λ xs. b ∷ (take n bs ++ xs)) (write_all-done (drop n bs) returns h)
    ∙ ap (◌∷◌ b) (take-append-drop n bs)

pub Outcome-cases : (o : Outcome) → (o ≡ done) ⊎ ((o ≡ threw) ⊎ (o ≡ stopped))
Outcome-cases done = inl refl
Outcome-cases threw = inr (inl refl)
Outcome-cases stopped = inr (inr refl)

pub write_parts-done :
    (parts : List Bytes) (returns : List WriteReturn)
    → (write_parts parts returns).outcome ≡ done
    → (write_parts parts returns).bytes ≡ concat parts
unfolding write_parts concat
write_parts-done [] returns h = refl
write_parts-done (p ∷ ps) returns h = ground (
  arith,
  write_all-done p returns,
  Outcome-cases (write_all p returns).outcome,
  write_parts-done ps (write_all p returns).later,
)
