-- ===== src/Collect/Ready.antt =====
-- When a block becomes ready in `analyze_packet` (alclib/alc_rx.c).
use route.Base.{
  ℕ, ◌+◌, ◌-◌, ◌^◌, ◌<◌, ◌≤◌, ◌≡◌, ◌≢◌, refl, arith, ◌∙◌, true, false, List, [], ◌∷◌, All, length,
  leb, if◌then◌else◌, inl, inr, Bool-cases, ◌==◌, min, u32, not, ◌||◌,
}
use route.Blocking.{BlockingStruct}
use route.Transport.{
  TransUnit, TransBlock, TransObj, create_block, insert_unit, with_units, count_bytes,
}
use route.Transport.Sorted.{IsSorted}
use route.Transport.Insert.{holds, Outcomes, outcomes, Placed-IsSorted, Placed-length}
use route.Transport.Order.{Placed-holds}
use route.Transport.Arrival.{Distinct}
use route.Collect.Store.{
  StoreArgs, block_ready_to_decode, begin_block, expect_units, add_repairs, remove_repairs,
  count_ready, store_in, object_completed,
}

abbrev Fresh : List TransUnit → List TransUnit → Type 0
Fresh held = All (λ v. holds v.esi held ≡ false)

-- An object of one block of `k` units, without repair symbols, of which units are counted.
pub record IsSingle (k : ℕ) (a : StoreArgs) (bs : BlockingStruct) : Type 0 where
  pub one_block : bs.n ≤ 1
  pub units : bs.a_large ≡ k
  pub some_units : 0 < k
  pub no_repairs : a.lost_packets ≡ 0
  pub by_units : a.per_packet ≢ 0
  pub fits : k < 2 ^ 32 - 1

-- The block holds `n` units, in order, and the object counts it as ready or not.
record Holds (k n : ℕ) (tb : TransBlock) (to : TransObj) : Type 0 where
  sorted : IsSorted tb.unit_list
  held : length tb.unit_list ≡ n
  counted : tb.nb_of_rx_units ≡ n
  ready : to.nb_of_ready_blocks ≡ (if leb k n then 1 else 0)

-- A unit that is new to a block that is not ready.
module _ (k : ℕ) (a : StoreArgs) (bs : BlockingStruct) (single : IsSingle k a bs) (tu : TransUnit)
    (tb : TransBlock) (to : TransObj) where
  expected : (tb' : TransBlock) → expect_units a bs tb' ≡ record tb' { k = k; max_k = k }
  unfolding expect_units
  expected tb' = ground (arith, single.one_block, single.units)

  no_repairs_added : (tb' : TransBlock) → add_repairs a.lost_packets tb' ≡ tb'
  unfolding add_repairs
  no_repairs_added tb' = rw single.no_repairs refl

  no_repairs_removed : (tb' : TransBlock) → remove_repairs a.lost_packets tb' ≡ tb'
  unfolding remove_repairs
  no_repairs_removed tb' = rw single.no_repairs refl

  abbrev sized : TransBlock
  sized = record (begin_block a bs tb) { k = k; max_k = k }

  ready-sized :
      (tb' : TransBlock)
      → tb'.k ≡ k
      → tb'.max_k ≡ k
      → block_ready_to_decode a.per_packet tb' ≡ (tb'.nb_of_rx_units == k)
  unfolding block_ready_to_decode
  ready-sized tb' e f = ground (arith, single.by_units)

  stored : store_in a bs tu (tb, to) ≡ (
      if not (tb.nb_of_rx_units == k)
      then count_ready a.per_packet (insert_unit tu sized to)
      else (sized, to))
  unfolding store_in
  stored =
      rw
        (
          expected (begin_block a bs tb),
          no_repairs_added sized,
          ready-sized sized refl refl,
          no_repairs_removed sized,
        )
        refl

  full-Holds :
      Holds k k tb to → Holds k k (store_in a bs tu (tb, to)).0 (store_in a bs tu (tb, to)).1
  full-Holds h = rw stored (
      rw (full h)
        (record { sorted = h.sorted; held = h.held; counted = h.counted; ready = h.ready }))
    where
      full : Holds k k tb to → (tb.nb_of_rx_units == k) ≡ true
      full h = ground (arith, h.counted)

  counted-Holds :
      (n : ℕ) (out : List TransUnit)
      → n < k
      → length out ≡ n + 1
      → IsSorted out
      → Holds k n tb to
      → let (tb', to') = count_ready a.per_packet (0, with_units sized out, count_bytes tu to) in
        Holds k (n + 1) tb' to'
  unfolding count_ready
  counted-Holds n out l e s h = record {
    sorted = s;
    held = e;
    counted = omega (arith, h.counted, single.fits);
    ready =
        rw
          (ready-sized
            (record (with_units sized out) { nb_of_rx_symbols = u32 (tb.nb_of_rx_symbols + 1) })
            refl refl)
          (ground (arith, h.counted, h.ready, single.fits));
  }

  kept_units :
      (out : List TransUnit)
      → (count_ready a.per_packet (0, with_units sized out, count_bytes tu to)).0.unit_list ≡ out
  unfolding count_ready
  kept_units out = refl

  next-Holds :
      (n : ℕ)
      → n < k
      → holds tu.esi tb.unit_list ≡ false
      → Holds k n tb to
      → (rest : List TransUnit) → Fresh tb.unit_list rest
      → All (λ v. tu.esi ≢ v.esi) rest
      → Holds k (n + 1) (store_in a bs tu (tb, to)).0 (store_in a bs tu (tb, to)).1
        × Fresh (store_in a bs tu (tb, to)).0.unit_list rest
  unfolding Outcomes
  next-Holds n l fresh h rest others apart = elim (outcomes tu sized to h.sorted) [
    | inl (held, e) ↦ absurd (clash held)
    | inr (out, new, e, p) ↦
        rw (stored, room, e)
          (
            counted-Holds n out l (omega (arith, Placed-length p, h.held))
                (Placed-IsSorted h.sorted p) h,
            rw (kept_units out) (still out rest (λ m d f. Placed-holds m d p ∙ f) others apart),
          )
  ]
    where
      clash : holds tu.esi tb.unit_list ≡ true → ⊥
      clash held = cc

      room : (tb.nb_of_rx_units == k) ≡ false
      room = ground (arith, h.counted)

      still :
          (out rest : List TransUnit)
          → ((m : ℕ) → tu.esi ≢ m → holds m tb.unit_list ≡ false → holds m out ≡ false)
          → Fresh tb.unit_list rest
          → All (λ v. tu.esi ≢ v.esi) rest
          → Fresh out rest
      still out [] f others apart = tt
      still out (v ∷ vs) f others apart =
          (f v.esi apart.0 others.0, still out vs f others.1 apart.1)

-- One unit after another, for a structure that stays.
abbrev pub store_all_in :
    StoreArgs → BlockingStruct → List TransUnit → TransBlock × TransObj → TransBlock × TransObj
store_all_in a bs [] p = p
store_all_in a bs (tu ∷ rest) p = store_all_in a bs rest (store_in a bs tu p)

Holds-same :
    (k n m : ℕ) (tb : TransBlock) (to : TransObj) → n ≡ m → Holds k n tb to → Holds k m tb to
Holds-same k n m tb to e h = rw e at h

module _ (k : ℕ) (a : StoreArgs) (bs : BlockingStruct) (single : IsSingle k a bs) where
  store_all-full :
      (us : List TransUnit) (tb : TransBlock) (to : TransObj)
      → Holds k k tb to
      → Holds k k (store_all_in a bs us (tb, to)).0 (store_all_in a bs us (tb, to)).1
  store_all-full [] tb to h = h
  store_all-full (u ∷ us) tb to h = store_all-full us _ _ (full-Holds k a bs single u tb to h)

  store_all-Holds :
      (us : List TransUnit) (tb : TransBlock) (to : TransObj) (n m : ℕ)
      → n ≤ k
      → min (n + length us) k ≡ m
      → Distinct us
      → Fresh tb.unit_list us
      → Holds k n tb to
      → Holds k m (store_all_in a bs us (tb, to)).0 (store_all_in a bs us (tb, to)).1
  store_all-Holds [] tb to n m l e d f h = Holds-same k n m tb to (omega arith) h
  store_all-Holds (u ∷ us) tb to n m l e d f h = elim (Bool-cases (leb k n)) [
    | inl full ↦
        let n_k : n ≡ k = ground arith in
        Holds-same k k m _ _ (omega arith)
          (store_all-full (u ∷ us) tb to (Holds-same k n k tb to n_k h))
    | inr room ↦
        let (h', f') = next-Holds k a bs single u tb to n (ground arith) f.0 h us f.1 d.0 in
        store_all-Holds us _ _ (n + 1) m (ground arith) (omega arith) d.1 f' h'
  ]

  pub stored-ready :
      (us : List TransUnit) (to : TransObj)
      → Distinct us
      → to.nb_of_ready_blocks ≡ 0
      → let (tb', to') = store_all_in a bs us (create_block, to) in
        (length tb'.unit_list ≡ min (length us) k)
        × (to'.nb_of_ready_blocks ≡ (if leb k (length us) then 1 else 0))
        × (object_completed to' bs ≡ (bs.n == 0 || leb k (length us)))
  unfolding object_completed
  stored-ready us to d e =
      let h =
        store_all-Holds us create_block to 0 (min (length us) k) (omega arith) (omega arith) d
          (nothing_held us)
          (record {
            sorted = tt;
            held = refl;
            counted = refl;
            ready = ground (arith, single.some_units);
          }) in
      (h.held, ground (arith, h.ready), ground (arith, h.ready, single.one_block))
    where
      nothing_held : (us : List TransUnit) → Fresh [] us
      nothing_held [] = tt
      nothing_held (u ∷ us) = (refl, nothing_held us)
