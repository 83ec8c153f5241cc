-- ===== src/Io.antt =====
-- The loops around `write` and `fsync`. What the operating system answers is a list of returns, one
-- for each call; when the list ends before the loop does, the process stopped there.
use kronos_engine.Prelude.{
  ℕ, zero, suc, ◌≡◌, refl, ap, ◌∙◌, sym, List, [], ◌∷◌, ◌++◌, Bytes, take, drop, append_assoc,
  take-append-drop, ◌↔◌,
}

-- One `write(fd, bytes, size)`: some bytes were taken, EINTR, or another error.
pub data WriteReturn : Type 0 where
  wrote : ℕ → WriteReturn
  interrupted error : WriteReturn

pub data FsyncReturn : Type 0 where
  synced interrupted error : FsyncReturn

-- The loop ended, it threw, or the process stopped inside it.
pub data Outcome : Type 0 where
  done threw stopped : Outcome

pub record Written : Type 0 where
  pub bytes : Bytes
  pub outcome : Outcome
  pub later : List WriteReturn

-- The bytes that reached the file before those that the rest of the loop writes.
abbrev after : Bytes → Written → Written
after front w = record w { bytes = front ++ w.bytes }

-- `while (total < size) write(...)`, on the bytes that are left.
unfoldable pub write_loop : Bytes → List WriteReturn → Written
write_loop [] returns = record { bytes = []; outcome = done; later = returns }
write_loop (b ∷ bs) [] = record { bytes = []; outcome = stopped; later = [] }
write_loop (b ∷ bs) (WriteReturn.interrupted ∷ returns) = write_loop (b ∷ bs) returns
write_loop (b ∷ bs) (WriteReturn.error ∷ returns) = record {
  bytes = [];
  outcome = threw;
  later = returns;
}
write_loop (b ∷ bs) (wrote zero ∷ returns) = record { bytes = []; outcome = threw; later = returns }
write_loop (b ∷ bs) (wrote (suc n) ∷ returns) =
    after (b ∷ take n bs) (write_loop (drop n bs) returns)

-- `while (fsync(fd) == -1) { if (errno == EINTR) continue; throw; }`
unfoldable pub fsync_loop : List FsyncReturn → Outcome
fsync_loop [] = stopped
fsync_loop (synced ∷ returns) = done
fsync_loop (FsyncReturn.interrupted ∷ returns) = fsync_loop returns
fsync_loop (FsyncReturn.error ∷ returns) = threw

-- Whatever `write` answers, what reached the file is a front part of the data, and all of it when
-- and only when the loop ends without an error.
pub write_loop-front :
    (bytes : Bytes) (returns : List WriteReturn)
    → (rest : Bytes) × (bytes ≡ (write_loop bytes returns).bytes ++ rest)
      × (((write_loop bytes returns).outcome ≡ done) ↔ (rest ≡ []))
unfolding write_loop
write_loop-front [] returns = ([], refl, (λ _. refl, λ _. refl))
write_loop-front (b ∷ bs) [] = (b ∷ bs, refl, (λ h. cc, λ h. cc))
write_loop-front (b ∷ bs) (WriteReturn.interrupted ∷ returns) = write_loop-front (b ∷ bs) returns
write_loop-front (b ∷ bs) (WriteReturn.error ∷ returns) = (b ∷ bs, refl, (λ h. cc, λ h. cc))
write_loop-front (b ∷ bs) (wrote zero ∷ returns) = (b ∷ bs, refl, (λ h. cc, λ h. cc))
write_loop-front (b ∷ bs) (wrote (suc n) ∷ returns) =
    let (rest, cut, whole) = write_loop-front (drop n bs) returns in
    (
      rest,
      ap (◌∷◌ b) (
          sym (take-append-drop n bs)
          ∙ ap (◌++◌ (take n bs)) cut
          ∙ sym (append_assoc (take n bs) _ rest)),
      whole,
    )
