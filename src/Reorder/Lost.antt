-- ===== src/Reorder/Lost.antt =====
-- `newReadFromBuffer` of alclib/alc_rx.c where the packet sought is in the middle of the list. If it
-- is the first of its TOI, `oneBefore` is still where the first loop left it, not before that cell.
use route.Base.{
  ℕ, ◌-◌, ◌<◌, ◌≡◌, ◌≢◌, refl, arith, ap, ◌∙◌, Option, none, some, [], ◌∷◌, ◌++◌, length,
  length-append, All,
}
use route.Reorder.{
  PacketBuffer, Cell, cell, Heap, Scan, Store, Run, ◌>>=◌, done, crashed, put, free, unlink,
  from_root, started, get_next_buffer_index, new_read_from_buffer,
}
use route.Reorder.Chain.{
  Cells, last_or-append, Linked, Away, put-Linked, load-some, split-Linked, split-NoDuplicate,
  turn_last,
}
use route.Reorder.Search.{before, scan_toi-crashed}
use route.Reorder.Read.{IsNext, marked, taken, get_next-IsNext}

before-append :
    (ys : Cells) (x z : ℕ × PacketBuffer) (zs : Cells) (e e' : Option ℕ)
    → before (ys ++ x ∷ z ∷ zs) e ≡ before (x ∷ z ∷ zs) e'
before-append [] x z zs e e' = refl
before-append (y ∷ []) x z zs e e' = refl
before-append (y ∷ y' ∷ ys) x z zs e e' = before-append (y' ∷ ys) x z zs (some y.0) e'

-- The cell before the last one is one of the list.
record Penult (h : Heap) (x z : ℕ × PacketBuffer) (zs : Cells) : Type 0 where
  address : ℕ
  stored : Cell
  is_before : before (x ∷ z ∷ zs) none ≡ some address
  found : h address ≡ some stored
  apart : (ws : Cells) → All (λ v. Away v.0 ws) (x ∷ z ∷ zs) → Away address ws

penult :
    (h : Heap) (x z : ℕ × PacketBuffer) (zs : Cells) → Linked h (x ∷ z ∷ zs) none → Penult h x z zs
penult h x z [] l = record {
  address = x.0;
  stored = cell x.1 (some z.0);
  is_before = refl;
  found = l.0;
  apart = λ ws a. a.0;
}
penult h x z (w ∷ zs) l =
    let p = penult h z w zs l.1 in
    record {
      address = p.address;
      stored = p.stored;
      is_before = p.is_before;
      found = p.found;
      apart = λ ws a. p.apart ws a.1;
    }

-- The pointer of another cell is turned.
abbrev turned : Store → ℕ → Cell → Option ℕ → Store
turned st b c next = record st { heap = put st.heap b (some (cell c.pb next)) }

unlink-middle :
    (st : Store) (r last a b : ℕ) (c c' : Cell)
    → st.root ≡ some r
    → st.head ≡ some last
    → r ≢ a
    → last ≢ a
    → st.heap b ≡ some c'
    → unlink a (some b) c st ≡ done (turned st b c' c.nextpb)
unfolding unlink
unlink-middle st r last a b c c' root head n n' f =
    ground (arith, root, head, load-some st.heap b f)

get_next-crashed :
    (fuel : ℕ) (st : Store) (y : ℕ × PacketBuffer) (ys : Cells) (q : ℕ)
    → st.root ≡ some y.0
    → Linked st.heap (y ∷ ys) (some q)
    → st.heap q ≡ none
    → length (y ∷ ys) < fuel
    → get_next_buffer_index fuel st ≡ crashed
unfolding get_next_buffer_index
get_next-crashed fuel st y ys q root l n f =
    ap (λ (p : Option ℕ). from_root fuel st p) root
    ∙ ap (λ (o : Run Scan). o >>= λ s. started fuel st s.start s.smallest s.one_before)
        (scan_toi-crashed fuel st.heap y ys q _ l n f)

-- Where the next packet is the first one of the smallest TOI but neither the first nor the last of
-- the list, and has a length, and others are counted, it is read; the next read then walks into the
-- cell that has been freed.
pub new_read_from_buffer-use_after_free :
    (fuel : ℕ) (st : Store) (y : ℕ × PacketBuffer) (ys : Cells) (x z : ℕ × PacketBuffer)
    (zs : Cells)
    → IsNext st (y ∷ ys) x (z ∷ zs)
    → 1 < st.fullness
    → x.1.length ≢ 0
    → length ((y ∷ ys) ++ x ∷ z ∷ zs) < fuel
    → (st' : Store) × (new_read_from_buffer fuel st ≡ done (x.1, st'))
      × (new_read_from_buffer fuel st' ≡ crashed)
unfolding new_read_from_buffer
new_read_from_buffer-use_after_free fuel st y ys x z zs n full some_length f =
    let i = n.is_stored in
    let m = marked x.1 st in
    let (front, back) = split-Linked st.heap (y ∷ ys) (x ∷ z ∷ zs) none i.linked in
    let (apart, rest) = split-NoDuplicate (y ∷ ys) (x ∷ z ∷ zs) i.no_duplicate in
    let p = penult st.heap x z zs back in
    let t = turn_last st.heap z zs 0 back.1 rest.1 in
    let away = p.apart (y ∷ ys) apart in
    let gone =
      unlink-middle m y.0 t.last x.0 p.address (cell x.1 (some z.0)) p.stored i.root_first
        (i.head_last ∙ last_or-append (y ∷ ys) x (z ∷ zs) none none ∙ t.is_last) apart.0.0
        (t.among x.0 rest.0) p.found in
    let st' = free x.0 (turned m p.address p.stored (some z.0)) in
    let get =
      get_next-IsNext fuel st (y ∷ ys) x (z ∷ zs) n f
      ∙ ap (λ (b : Option ℕ). taken x.0 b (cell x.1 (some z.0)) m)
          (before-append (y ∷ ys) x z zs none none ∙ p.is_before)
      ∙ ap (λ (o : Run Store). o >>= λ s. done (x.1, free x.0 s)) gone in
    let crash =
      get_next-crashed fuel (record st' { fullness = st.fullness - 1 }) y ys x.0 i.root_first
        (put-Linked _ x.0 none (y ∷ ys) (some x.0) apart.0
          (put-Linked st.heap p.address _ (y ∷ ys) (some x.0) away front))
        (freed (turned m p.address p.stored (some z.0)).heap x.0) (shorter f) in
    (record st' { fullness = st.fullness - 1 }, rw get (ground arith), rw crash (ground arith))
  where
    freed : (h : Heap) (a : ℕ) → put h a none a ≡ none
    freed h a = ground arith

    shorter : length ((y ∷ ys) ++ x ∷ z ∷ zs) < fuel → length (y ∷ ys) < fuel
    shorter f = omega (arith, length-append (y ∷ ys) (x ∷ z ∷ zs))
