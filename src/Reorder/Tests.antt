-- ===== src/Reorder/Tests.antt =====
-- The buffer of packets with three packets, of which the second or the first is the next.
use route.Base.{
  ℕ, ◌+◌, ◌-◌, ◌%◌, ◌^◌, ◌≡◌, refl, arith, none, some, true, [], ◌∷◌, ◌++◌, if◌then◌else◌, ◌==◌,
}
use route.Reorder.{
  PacketBuffer, cell, Heap, Store, put, done, crashed, new_write_to_buffer, new_read_from_buffer,
}
use route.Reorder.Chain.{Cells, IsStored}
use route.Reorder.Write.{new_write_to_buffer-IsStored}
use route.Reorder.Read.{IsNext, new_read_from_buffer-first}
use route.Reorder.Lost.{new_read_from_buffer-use_after_free}

abbrev packet : ℕ → ℕ → PacketBuffer
packet toi esi = record { toi = toi; esi = esi; length = 1; buffer = 42 ∷ [] }

-- The cells 10, 20 and 30, in this order, with the first symbols of the TOIs.
abbrev heap_of : ℕ → ℕ → ℕ → Heap
heap_of a b c =
    put
      (put (put (λ p. none) 30 (some (cell (packet c 0) none))) 20
        (some (cell (packet b 0) (some 30))))
      10 (some (cell (packet a 0) (some 20)))

abbrev store : ℕ → ℕ → ℕ → Store
store a b c = record {
  heap = heap_of a b c;
  root = some 10;
  head = some 30;
  last_read_toi = 0;
  last_read_esi = 0;
  fullness = 3;
}

abbrev cells : ℕ → ℕ → ℕ → Cells
cells a b c = (10, packet a 0) ∷ (20, packet b 0) ∷ (30, packet c 0) ∷ []

store-IsStored : (a b c : ℕ) → IsStored (store a b c) (cells a b c)
store-IsStored a b c = record {
  root_first = refl;
  head_last = refl;
  linked = (refl, (refl, (refl, tt)));
  no_duplicate =
      (((λ e. omega arith), ((λ e. omega arith), tt)), (((λ e. omega arith), tt), (tt, tt)));
}

new_write_to_buffer-IsStored_example :
    (st' : Store) × (new_write_to_buffer 40 (packet 8 0) (store 5 6 7) ≡ done (true, st'))
    × IsStored st' (cells 5 6 7 ++ (40, packet 8 0) ∷ [])
    × (st'.fullness ≡ 3 + 1)
new_write_to_buffer-IsStored_example =
    new_write_to_buffer-IsStored 40 (packet 8 0) (store 5 6 7) (cells 5 6 7) (store-IsStored 5 6 7)
      refl (λ e. omega arith)

in_order : IsNext (store 5 6 7) [] (10, packet 5 0) ((20, packet 6 0) ∷ (30, packet 7 0) ∷ [])
in_order = record {
  is_stored = store-IsStored 5 6 7;
  above = tt;
  from = (omega arith, (omega arith, tt));
  bounded = omega arith;
  comes_next = refl;
}

new_read_from_buffer-first_example :
    (st' : Store) × (new_read_from_buffer 9 (store 5 6 7) ≡ done (packet 5 0, st'))
    × IsStored st' ((20, packet 6 0) ∷ (30, packet 7 0) ∷ [])
    × (st'.last_read_toi ≡ 5)
    × (st'.last_read_esi ≡ (0 + 1) % 2 ^ 32)
    × (st'.fullness ≡ (if 1 == 0 then 3 else 3 - 1))
new_read_from_buffer-first_example =
    new_read_from_buffer-first 9 (store 5 6 7) (10, packet 5 0)
      ((20, packet 6 0) ∷ (30, packet 7 0) ∷ []) in_order (λ e. omega arith) (omega arith)

out_of_order : IsNext (store 5 3 7) ((10, packet 5 0) ∷ []) (20, packet 3 0) ((30, packet 7 0) ∷ [])
out_of_order = record {
  is_stored = store-IsStored 5 3 7;
  above = (omega arith, tt);
  from = (omega arith, tt);
  bounded = omega arith;
  comes_next = refl;
}

new_read_from_buffer-use_after_free_example :
    (st' : Store) × (new_read_from_buffer 9 (store 5 3 7) ≡ done (packet 3 0, st'))
    × (new_read_from_buffer 9 st' ≡ crashed)
new_read_from_buffer-use_after_free_example =
    new_read_from_buffer-use_after_free 9 (store 5 3 7) (10, packet 5 0) [] (20, packet 3 0)
      (30, packet 7 0) [] out_of_order (omega arith) (λ e. omega arith) (omega arith)
