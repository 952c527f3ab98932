-- ===== src/Reorder/Search.antt =====
-- What the first loop of `getNextBufferIndex` (alclib/alc_rx.c) finds.
use route.Base.{
  ℕ, zero, suc, ◌<◌, ◌≤◌, ◌≡◌, refl, arith, Option, none, some, [], ◌∷◌, ◌++◌, length, All,
}
use route.Reorder.{PacketBuffer, Heap, Scan, smaller, scan_toi, done, crashed}
use route.Reorder.Chain.{Cells, Linked, load-some, load-none}

-- The cell before the last one.
abbrev pub before : Cells → Option ℕ → Option ℕ
before [] b = b
before (x ∷ []) b = b
before (x ∷ y ∷ r) b = before (y ∷ r) (some x.0)

-- The loop on the cells themselves.
abbrev pub passed_by : ℕ × PacketBuffer → Cells → Scan → Scan
passed_by x [] s = smaller x.0 x.1 s
passed_by x (y ∷ r) s = record (smaller x.0 x.1 s) { one_before = some x.0 }

abbrev pub scan_cells : Cells → Scan → Scan
scan_cells [] s = s
scan_cells (x ∷ xs) s = scan_cells xs (passed_by x xs s)

pub scan_toi-Linked :
    (fuel : ℕ) (h : Heap) (x : ℕ × PacketBuffer) (xs : Cells) (s : Scan)
    → Linked h (x ∷ xs) none
    → length xs < fuel
    → scan_toi fuel h x.0 s ≡ done (scan_cells (x ∷ xs) s)
unfolding scan_toi
scan_toi-Linked zero h x xs s l f = absurd (omega arith)
scan_toi-Linked (suc fuel) h x [] s l f = rw (load-some h x.0 l.0) refl
scan_toi-Linked (suc fuel) h x (y ∷ ys) s l f =
    rw (load-some h x.0 l.0) (scan_toi-Linked fuel h y ys _ l.1 (omega arith))

-- The loop runs into a cell that is not allocated.
pub scan_toi-crashed :
    (fuel : ℕ) (h : Heap) (x : ℕ × PacketBuffer) (xs : Cells) (q : ℕ) (s : Scan)
    → Linked h (x ∷ xs) (some q)
    → h q ≡ none
    → length (x ∷ xs) < fuel
    → scan_toi fuel h x.0 s ≡ crashed
unfolding scan_toi
scan_toi-crashed zero h x xs q s l n f = absurd (omega arith)
scan_toi-crashed (suc zero) h x xs q s l n f = absurd (omega arith)
scan_toi-crashed (suc (suc fuel)) h x [] q s l n f = rw (load-some h x.0 l.0, load-none h q n) refl
scan_toi-crashed (suc (suc fuel)) h x (y ∷ ys) q s l n f =
    rw (load-some h x.0 l.0) (scan_toi-crashed (suc fuel) h y ys q _ l.1 n (omega arith))

-- What is found where `x` is the first packet of the smallest TOI.
pub record Found (s : Scan) (x : ℕ × PacketBuffer) (b : Option ℕ) : Type 0 where
  pub smallest : s.smallest ≡ x.1.toi
  pub start : s.start ≡ some x.0
  pub one_before : s.one_before ≡ b

abbrev pub From : ℕ → Cells → Type 0
From n = All (λ y. n ≤ y.1.toi)

abbrev pub Above : ℕ → Cells → Type 0
Above n = All (λ y. n < y.1.toi)

-- No packet behind `x` is smaller.
scan_behind :
    (x : ℕ × PacketBuffer) (z : ℕ × PacketBuffer) (zs : Cells) (s : Scan)
    → Found s x s.one_before
    → From x.1.toi (z ∷ zs)
    → Found (scan_cells (z ∷ zs) s) x (before (z ∷ zs) s.one_before)
scan_behind x z [] s f l = record {
  smallest = ground (arith, f.smallest);
  start = ground (arith, f.start, f.smallest);
  one_before = ground arith;
}
scan_behind x z (y ∷ ys) s f l =
    scan_behind x y ys (passed_by z (y ∷ ys) s)
      (record {
        smallest = ground (arith, f.smallest);
        start = ground (arith, f.start, f.smallest);
        one_before = refl;
      })
      l.1

scan-Found :
    (x : ℕ × PacketBuffer) (zs : Cells) (s : Scan)
    → x.1.toi < s.smallest
    → From x.1.toi zs
    → Found (scan_cells (x ∷ zs) s) x (before (x ∷ zs) s.one_before)
scan-Found x [] s p l = record {
  smallest = ground arith;
  start = ground arith;
  one_before = ground arith;
}
scan-Found x (z ∷ zs) s p l =
    scan_behind x z zs (passed_by x (z ∷ zs) s)
      (record { smallest = ground arith; start = ground arith; one_before = refl }) l

pub scan_cells-Found :
    (ys : Cells) (x : ℕ × PacketBuffer) (zs : Cells) (s : Scan)
    → x.1.toi < s.smallest
    → Above x.1.toi ys
    → From x.1.toi zs
    → Found (scan_cells (ys ++ x ∷ zs) s) x (before (ys ++ x ∷ zs) s.one_before)
scan_cells-Found [] x zs s p a l = scan-Found x zs s p l
scan_cells-Found (y ∷ []) x zs s p a l =
    scan_cells-Found [] x zs (passed_by y (x ∷ zs) s) (ground arith) tt l
scan_cells-Found (y ∷ y' ∷ ys) x zs s p a l =
    scan_cells-Found (y' ∷ ys) x zs (passed_by y (y' ∷ ys) s) (ground arith) a.1 l
