-- ===== src/Reorder/Write.antt =====
-- `newWriteToBuffer` of alclib/alc_rx.c appends to the list.
use route.Base.{ℕ, ◌+◌, ◌≡◌, ◌≢◌, refl, arith, sym, ◌∙◌, true, none, some, [], ◌∷◌, ◌++◌}
use route.Reorder.{PacketBuffer, Cell, cell, Store, done, put, empty_slot, new_write_to_buffer}
use route.Reorder.Chain.{
  Cells, IsStored, load-some, put-ne, put-Linked, append-Linked, last_or-append, unallocated-Away,
  turn_last, append-NoDuplicate,
}

-- The slot is the last of the list, and nothing else changes.
record Appended (a : ℕ) (pb : PacketBuffer) (st : Store) (xs : Cells) (st' : Store) : Type 0 where
  slot : empty_slot a pb st ≡ done st'
  stored : IsStored st' (xs ++ (a, pb) ∷ [])
  same_count : st'.fullness ≡ st.fullness

-- The first cell of a list.
abbrev first_slot : ℕ → PacketBuffer → Store → Store
first_slot a pb st = record st {
  heap = put st.heap a (some (cell pb none));
  root = some a;
  head = some a;
}

-- A further one, behind the cell at `last`.
abbrev next_slot : ℕ → PacketBuffer → ℕ → Cell → Store → Store
next_slot a pb last c st = record st {
  heap = put (put st.heap a (some (cell pb none))) last (some (cell c.pb (some a)));
  head = some a;
}

new_cell :
    (st : Store) (a : ℕ) (pb : PacketBuffer)
    → put st.heap a (some (cell pb none)) a ≡ some (cell pb none)
new_cell st a pb = ground arith

slot_written :
    (a : ℕ) (pb : PacketBuffer) (st : Store) (last : ℕ) {c : Cell}
    → st.head ≡ some last
    → st.heap last ≡ some c
    → empty_slot a pb st ≡ done (next_slot a pb last c st)
unfolding empty_slot
slot_written a pb st last e f = ground (arith, e, load-some st.heap last f)

empty_slot-Appended :
    (a : ℕ) (pb : PacketBuffer) (st : Store) (xs : Cells)
    → IsStored st xs
    → st.heap a ≡ none
    → (st' : Store) × Appended a pb st xs st'
unfolding empty_slot
empty_slot-Appended a pb st [] i free = (
  first_slot a pb st,
  record {
    slot = rw (i.head_last, i.root_first) refl;
    stored = record {
      root_first = refl;
      head_last = refl;
      linked = (new_cell st a pb, tt);
      no_duplicate = (tt, tt);
    };
    same_count = refl;
  },
)
empty_slot-Appended a pb st (x ∷ xs) i free =
    let away = unallocated-Away st.heap a (x ∷ xs) none free i.linked in
    let h = put st.heap a (some (cell pb none)) in
    let t =
      turn_last h x xs a (put-Linked st.heap a _ (x ∷ xs) none away i.linked) i.no_duplicate in
    let apart = t.among a away in
    let before = sym (put-ne st.heap a t.last (some (cell pb none)) apart) ∙ t.found in
    (
      next_slot a pb t.last t.stored st,
      record {
        slot = slot_written a pb st t.last (i.head_last ∙ t.is_last) before;
        stored = record {
          root_first = i.root_first;
          head_last = sym (last_or-append (x ∷ xs) (a, pb) [] none none);
          linked =
              append-Linked _ (x ∷ xs) ((a, pb) ∷ []) none t.turned
                (put-ne h t.last a _ (λ e. apart (sym e)) ∙ new_cell st a pb, tt);
          no_duplicate = append-NoDuplicate (x ∷ xs) (a, pb) i.no_duplicate away;
        };
        same_count = refl;
      },
    )

-- A packet that is written to a buffer that is not full, into a cell that was free, is the last
-- of the list, and is counted.
pub new_write_to_buffer-IsStored :
    (a : ℕ) (pb : PacketBuffer) (st : Store) (xs : Cells)
    → IsStored st xs
    → st.heap a ≡ none
    → st.fullness ≢ 999999
    → (st' : Store) × (new_write_to_buffer a pb st ≡ done (true, st'))
      × IsStored st' (xs ++ (a, pb) ∷ [])
      × (st'.fullness ≡ st.fullness + 1)
unfolding new_write_to_buffer
new_write_to_buffer-IsStored a pb st xs i free room =
    let (st', done') = empty_slot-Appended a pb st xs i free in
    (
      record st' { fullness = st'.fullness + 1 },
      rw done'.slot (ground arith),
      record {
        root_first = done'.stored.root_first;
        head_last = done'.stored.head_last;
        linked = done'.stored.linked;
        no_duplicate = done'.stored.no_duplicate;
      },
      omega (arith, done'.same_count),
    )
