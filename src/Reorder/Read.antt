-- ===== src/Reorder/Read.antt =====
-- `newReadFromBuffer` of alclib/alc_rx.c where the packet sought is the first of the list.
use route.Base.{
  ℕ, zero, suc, ◌+◌, ◌-◌, ◌%◌, ◌^◌, ◌<◌, ◌≡◌, ◌≢◌, refl, arith, sym, ap, ◌∙◌, Option, none, some,
  [], ◌∷◌, ◌++◌, length, ◌==◌, if◌then◌else◌, Bool-cases, inl, inr,
}
use route.Reorder.{
  PacketBuffer, Cell, cell, Heap, Scan, Store, Run, ◌>>=◌, done, free, unlink, scan_toi, scan_esi,
  take_from, restarted, started, from_root, ullong_max, get_next_buffer_index, new_read_from_buffer,
}
use route.Reorder.Chain.{
  Cells, first_or, last_or, IsStored, put-Linked, load-some, split-Linked, turn_last,
}
use route.Reorder.Search.{before, scan_cells, scan_toi-Linked, Found, From, Above, scan_cells-Found}

-- The symbol number that comes next for a TOI.
abbrev pub expected : ℕ → Store → ℕ
expected toi st = if toi == st.last_read_toi then st.last_read_esi else 0

-- What the call remembers of the packet.
abbrev pub marked : PacketBuffer → Store → Store
marked pb st = record st { last_read_toi = pb.toi; last_read_esi = (pb.esi + 1) % 2 ^ 32 }

abbrev pub taken : ℕ → Option ℕ → Cell → Store → Run (PacketBuffer × Store)
taken a b c st = unlink a b c st >>= λ st'. done (c.pb, free a st')

take_from-found :
    (fuel toi a : ℕ) (b : Option ℕ) (c : Cell) (st : Store)
    → 0 < fuel
    → st.heap a ≡ some c
    → c.pb.toi ≡ toi
    → c.pb.esi ≡ st.last_read_esi
    → take_from fuel toi a b st ≡ taken a b c (marked c.pb st)
unfolding take_from scan_esi
take_from-found zero toi a b c st p f t e = absurd (omega arith)
take_from-found (suc fuel) toi a b c st p f t e =
    rw (load-some st.heap a f) (ground (arith, load-some st.heap a f))

-- The variables hold a list in which `x` is the first packet of the smallest TOI, and is the next
-- one of that TOI.
pub record IsNext (st : Store) (ys : Cells) (x : ℕ × PacketBuffer) (zs : Cells) : Type 0 where
  pub is_stored : IsStored st (ys ++ x ∷ zs)
  pub above : Above x.1.toi ys
  pub from : From x.1.toi zs
  pub bounded : x.1.toi < 2 ^ 64 - 1
  pub comes_next : x.1.esi ≡ expected x.1.toi st

restarted-marked :
    (pb : PacketBuffer) (st : Store)
    → (marked pb (restarted pb.toi st) ≡ marked pb st)
      × ((restarted pb.toi st).last_read_esi ≡ expected pb.toi st)
      × ((restarted pb.toi st).heap ≡ st.heap)
restarted-marked pb st = elim (Bool-cases (pb.toi == st.last_read_toi)) [
  | inl e ↦ rw e (refl, refl, refl)
  | inr e ↦ rw e (refl, refl, refl)
]

abbrev initial : Scan
initial = record { one_before = none; smallest = ullong_max; start = none }

get_next-scanned :
    (fuel r a : ℕ) (st : Store) (s : Scan) (toi : ℕ) (b : Option ℕ)
    → st.root ≡ some r
    → scan_toi fuel st.heap r initial ≡ done s
    → s.start ≡ some a
    → s.smallest ≡ toi
    → s.one_before ≡ b
    → get_next_buffer_index fuel st ≡ take_from fuel toi a b (restarted toi st)
unfolding get_next_buffer_index
get_next-scanned fuel r a st s toi b root scan start small before' =
    ap (λ (p : Option ℕ). from_root fuel st p) root
    ∙ ap (λ (o : Run Scan). o >>= λ s. started fuel st s.start s.smallest s.one_before) scan
    ∙ ap (λ (p : Option ℕ). started fuel st p s.smallest s.one_before) start
    ∙ rw (small, before') refl

-- The loops find `x`.
pub get_next-IsNext :
    (fuel : ℕ) (st : Store) (ys : Cells) (x : ℕ × PacketBuffer) (zs : Cells)
    → IsNext st ys x zs
    → length (ys ++ x ∷ zs) < fuel
    → get_next_buffer_index fuel st
      ≡ taken x.0 (before (ys ++ x ∷ zs) none) (cell x.1 (first_or zs none)) (marked x.1 st)
get_next-IsNext fuel st ys x zs n f =
    let i = n.is_stored in
    let back = (split-Linked st.heap ys (x ∷ zs) none i.linked).1 in
    let found = scan_cells-Found ys x zs initial n.bounded n.above n.from in
    let (same, next, heap) = restarted-marked x.1 st in
    scanned ys i f found
    ∙ take_from-found fuel x.1.toi x.0 _ (cell x.1 (first_or zs none)) (restarted x.1.toi st)
        (omega arith) (ap (λ (h : Heap). h x.0) heap ∙ back.0) refl (n.comes_next ∙ sym next)
    ∙ ap (λ (t : Store). taken x.0 (before (ys ++ x ∷ zs) none) (cell x.1 (first_or zs none)) t)
        same
  where
    scanned :
        (ys : Cells)
        → IsStored st (ys ++ x ∷ zs)
        → length (ys ++ x ∷ zs) < fuel
        → Found (scan_cells (ys ++ x ∷ zs) initial) x (before (ys ++ x ∷ zs) none)
        → get_next_buffer_index fuel st
          ≡ take_from fuel x.1.toi x.0 (before (ys ++ x ∷ zs) none) (restarted x.1.toi st)
    scanned [] i f found =
        get_next-scanned fuel x.0 x.0 st _ x.1.toi _ i.root_first
          (scan_toi-Linked fuel st.heap x zs initial i.linked (omega arith)) found.start
          found.smallest found.one_before
    scanned (y ∷ ys) i f found =
        get_next-scanned fuel y.0 x.0 st _ x.1.toi _ i.root_first
          (scan_toi-Linked fuel st.heap y (ys ++ x ∷ zs) initial i.linked (omega arith)) found.start
          found.smallest found.one_before

-- The first cell goes.
abbrev without_first : Cells → Store → Option ℕ → Store
without_first zs st h = record st { root = first_or zs none; head = h }

unlink-first :
    (x : ℕ × PacketBuffer) (zs : Cells) (st : Store)
    → IsStored st (x ∷ zs)
    → (h : Option ℕ) × (unlink x.0 (before (x ∷ zs) none) (cell x.1 (first_or zs none)) st
        ≡ done (without_first zs st h))
      × (h ≡ last_or zs none)
unfolding unlink
unlink-first x [] st i = (none, rw (i.root_first, i.head_last) (ground arith), refl)
unlink-first x (z ∷ zs) st i =
    let t = turn_last st.heap z zs 0 i.linked.1 i.no_duplicate.1 in
    let apart = t.among x.0 i.no_duplicate.0 in
    (st.head, kept t.last (i.head_last ∙ t.is_last) apart (before (z ∷ zs) (some x.0)), i.head_last)
  where
    kept :
        (last : ℕ)
        → st.head ≡ some last
        → last ≢ x.0
        → (b : Option ℕ)
        → unlink x.0 b (cell x.1 (some z.0)) st ≡ done (without_first (z ∷ zs) st st.head)
    kept last e n none = rw i.root_first (ground (arith, e))
    kept last e n (some b) = rw i.root_first (ground (arith, e))

-- Where the first packet of the list has the smallest TOI and is the next one of it, it is the one
-- that is read, its cell alone goes out of the list, and the call remembers it; it is taken off the
-- count unless its length is 0.
pub new_read_from_buffer-first :
    (fuel : ℕ) (st : Store) (x : ℕ × PacketBuffer) (zs : Cells)
    → IsNext st [] x zs
    → st.fullness ≢ 0
    → length (x ∷ zs) < fuel
    → (st' : Store) × (new_read_from_buffer fuel st ≡ done (x.1, st'))
      × IsStored st' zs
      × (st'.last_read_toi ≡ x.1.toi)
      × (st'.last_read_esi ≡ (x.1.esi + 1) % 2 ^ 32)
      × (st'.fullness ≡ (if x.1.length == 0 then st.fullness else st.fullness - 1))
unfolding new_read_from_buffer
new_read_from_buffer-first fuel st x zs n full f =
    let i = n.is_stored in
    let m = marked x.1 st in
    let i' : IsStored m (x ∷ zs) = record {
      root_first = i.root_first;
      head_last = i.head_last;
      linked = i.linked;
      no_duplicate = i.no_duplicate;
    } in
    let (h, gone, last) = unlink-first x zs m i' in
    let st' = free x.0 (without_first zs m h) in
    let count = if x.1.length == 0 then st.fullness else st.fullness - 1 in
    (
      record st' { fullness = count },
      read st' (get_next-IsNext fuel st [] x zs n f ∙ rw gone refl) refl,
      record {
        root_first = refl;
        head_last = last;
        linked = put-Linked st.heap x.0 none zs none i.no_duplicate.0 i.linked.1;
        no_duplicate = i.no_duplicate.1;
      },
      refl,
      refl,
      refl,
    )
  where
    read :
        (st' : Store)
        → get_next_buffer_index fuel st ≡ done (x.1, st')
        → st'.fullness ≡ st.fullness
        → new_read_from_buffer fuel st
          ≡ done (
            x.1,
            record st' { fullness = if x.1.length == 0 then st.fullness else st.fullness - 1 },
          )
    read st' e c = rw e (ground arith)
