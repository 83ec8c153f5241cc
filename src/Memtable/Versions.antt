-- ===== src/Memtable/Versions.antt =====
-- Which version of a key a memtable keeps: the one with the largest sequence number.
use kronos_engine.Prelude.{
  ℕ, ◌≤◌, ◌≡◌, ◌≢◌, ◌⊎◌, inl, inr, refl, ap, ◌∙◌, sym, Option, none, some, List, [], ◌∷◌, Bytes,
  arith, leb, eq_of_compare, str_eq, if◌then◌else◌, Bool-cases, All, All-imp, str_eq_iff, subst,
}
use kronos_engine.Types.{InternalEntry, OperationType, put, delete}
use kronos_engine.OrderedMap.{find}
use kronos_engine.OrderedMap.Laws.{find-insert_or_assign}
use kronos_engine.Memtable.{
  Memtable, mutable, WriteResult, frozen, init, write_mutable, write, put_entry, remove_entry,
  lookup_entry, freeze,
}

-- A write that a client asks for, with the sequence number that it was given.
pub record Write : Type 0 where
  pub key : Bytes
  pub value : Bytes
  pub sequence : ℕ
  pub operation : OperationType

abbrev pub entry_of : Write → InternalEntry
entry_of w = elim w.operation [
  | put ↦ record { value = w.value; sequence = w.sequence; operation = put }
  | delete ↦ record { value = []; sequence = w.sequence; operation = delete }
]

unfoldable pub apply : Memtable → Write → Memtable × WriteResult
unfolding put_entry remove_entry
apply t w = elim w.operation [
  | put ↦ put_entry t w.key w.value w.sequence
  | delete ↦ remove_entry t w.key w.sequence
]

unfoldable pub apply_all : Memtable → List Write → Memtable
apply_all t [] = t
apply_all t (w ∷ ws) = apply_all (apply t w).0 ws

-- The newer of the version at hand and a write; the one at hand where the numbers are equal.
abbrev pub newer : Option InternalEntry → InternalEntry → InternalEntry
newer none e = e
newer (some old) e = if leb e.sequence old.sequence then old else e

-- The newest version of one key in a history, with no table.
unfoldable pub newest : Bytes → Option InternalEntry → List Write → Option InternalEntry
newest key best [] = best
newest key best (w ∷ ws) =
    newest key (if str_eq w.key key then some (newer best (entry_of w)) else best) ws

module _ (t : Memtable) (key : Bytes) (e : InternalEntry) where
  pub find-write_mutable :
      (j : Bytes)
      → find j (write_mutable t key e).0.mtable
        ≡ (if str_eq key j then some (newer (find j t.mtable) e) else find j t.mtable)
  unfolding write_mutable
  find-write_mutable j = elim (Bool-cases (str_eq key j)) [
    | inl same ↦ ground (arith, eq_of_compare key j, find-insert_or_assign key j e t.mtable)
    | inr other ↦ ground (arith, find-insert_or_assign key j e t.mtable)
  ]

  pub state-write_mutable : (write_mutable t key e).0.state ≡ t.state
  unfolding write_mutable
  state-write_mutable = ground arith

pub apply-eq-write : (t : Memtable) (w : Write) → apply t w ≡ write t.state t w.key (entry_of w)
unfolding apply
apply-eq-write t w = ground arith

pub apply-mutable :
    (t : Memtable) (w : Write)
    → t.state ≡ mutable
    → (apply t w).0 ≡ (write_mutable t w.key (entry_of w)).0
unfolding write
apply-mutable t w m = rw (apply-eq-write t w, m) refl

-- The table is a map from each key to the newest version that the history asks to write.
pub lookup_entry-apply_all :
    (t : Memtable) (ws : List Write) (key : Bytes)
    → t.state ≡ mutable
    → lookup_entry (apply_all t ws) key ≡ newest key (lookup_entry t key) ws
unfolding apply_all newest lookup_entry
lookup_entry-apply_all t [] key m = refl
lookup_entry-apply_all t (w ∷ ws) key m =
    lookup_entry-apply_all (apply t w).0 ws key
      (rw (apply-mutable t w m) (state-write_mutable t w.key (entry_of w) ∙ m))
    ∙ ap (λ b. newest key b ws)
        (ap (λ (u : Memtable). find key u.mtable) (apply-mutable t w m)
          ∙ find-write_mutable t w.key (entry_of w) key)

-- A memtable that was frozen refuses every write, PUT or DELETE, and keeps its entries.
pub apply-frozen : (t : Memtable) (w : Write) → apply (freeze t).0 w ≡ ((freeze t).0, frozen)
unfolding apply freeze
apply-frozen t w = ground arith

-- The version at hand is as new as the number `n`.
abbrev pub AtLeast : Option InternalEntry → ℕ → Type 0
AtLeast none n = ⊥
AtLeast (some e) n = n ≤ e.sequence

-- The history writes this version of the key.
abbrev pub Written : Bytes → InternalEntry → List Write → Type 0
Written key e [] = ⊥
Written key e (w ∷ ws) = ((w.key ≡ key) × (e ≡ entry_of w)) ⊎ Written key e ws

newest_mono :
    (key : Bytes) (best : Option InternalEntry) (ws : List Write) (n : ℕ)
    → AtLeast best n
    → AtLeast (newest key best ws) n
unfolding newest
newest_mono key best [] n h = h
newest_mono key none (w ∷ ws) n h = absurd h
newest_mono key (some e) (w ∷ ws) n h =
    newest_mono key (if str_eq w.key key then some (newer (some e) (entry_of w)) else some e) ws n
      (ground arith)

newer-AtLeast :
    (best : Option InternalEntry) (w : Write) → w.sequence ≤ (newer best (entry_of w)).sequence
newer-AtLeast none w = ground arith
newer-AtLeast (some e) w = ground arith

newest-covers :
    (key : Bytes) (best : Option InternalEntry) (ws : List Write)
    → All (λ w. w.key ≡ key → AtLeast (newest key best ws) w.sequence) ws
unfolding newest
newest-covers key best [] = tt
newest-covers key best (w ∷ ws) = (
  λ e.
      newest_mono key (if str_eq w.key key then some (newer best (entry_of w)) else best) ws
        w.sequence (rw ((str_eq_iff w.key key).1 e) (newer-AtLeast best w)),
  newest-covers key (if str_eq w.key key then some (newer best (entry_of w)) else best) ws,
)

newest-Written :
    (key : Bytes) (best : Option InternalEntry) (ws : List Write) (e : InternalEntry)
    → newest key best ws ≡ some e
    → (best ≡ some e) ⊎ Written key e ws
unfolding newest
newest-Written key best [] e h = inl h
newest-Written key best (w ∷ ws) e h =
    elim (newest-Written key (if str_eq w.key key then some (newer best (entry_of w)) else best) ws
      e h) [ inl here ↦ ground (arith, eq_of_compare w.key key) | inr later ↦ inr (inr later) ]

pub lookup_entry-init :
    (target : ℕ) (ws : List Write) (key : Bytes)
    → lookup_entry (apply_all (init target) ws) key ≡ newest key none ws
unfolding init
lookup_entry-init target ws key =
    lookup_entry-apply_all (init target) ws key refl ∙ unfold lookup_entry find in refl

-- After any history of a new memtable: a key that reads an entry was written with that very entry,
-- and no write of the key has a larger sequence number; a key that reads none was never written.
pub lookup_entry-newest :
    (target : ℕ) (ws : List Write) (key : Bytes)
    → ((e : InternalEntry)
        → lookup_entry (apply_all (init target) ws) key ≡ some e
        → Written key e ws × All (λ w. w.key ≡ key → w.sequence ≤ e.sequence) ws)
      × (lookup_entry (apply_all (init target) ws) key ≡ none → All (λ w. w.key ≢ key) ws)
lookup_entry-newest target ws key = (
  λ e h.
      let r : newest key none ws ≡ some e = sym (lookup_entry-init target ws key) ∙ h in
      (
        from_history (newest-Written key none ws e r),
        All-imp (λ w c k. subst (λ o. AtLeast o w.sequence) r (c k)) ws (newest-covers key none ws),
      ),
  λ h.
      let r : newest key none ws ≡ none = sym (lookup_entry-init target ws key) ∙ h in
      All-imp (λ w c k. subst (λ o. AtLeast o w.sequence) r (c k)) ws (newest-covers key none ws),
)
  where
    from_history : {e : InternalEntry} → (none ≡ some e) ⊎ Written key e ws → Written key e ws
    from_history (inl h) = cc
    from_history (inr w) = w
