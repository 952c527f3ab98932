-- ===== src/NullFec/Delivery.antt =====
-- A source block from the sender to the receiver: cut by alclib/null_fec.c, its units arriving one
-- by one at alclib/transport.c, and put together again by alclib/null_fec.c.
use route.Base.{
  ℕ, zero, suc, ◌+◌, ◌-◌, ◌*◌, ◌^◌, ◌<◌, ◌≤◌, ◌≡◌, refl, arith, ap, sym, ◌∙◌, Option, none, some,
  List, [], ◌∷◌, ◌++◌, length, length-drop, take, drop, replicate, u32,
}
use mathlib.Core.Path.{subst}
use native.Mathlib.Nat.{div-add-mod', mod-lt, div-lt_iff_lt-mul}
use route.Transport.{TransUnit, TransBlock, TransObj, create_block}
use route.Transport.Arrival.{
  insert_all, Reordered, as_is, keep, exchange, and_then, Short, insert_all-Reordered, Numbered,
  insert_all-Numbered, Numbered-Distinct,
}
use route.Xor.{cut_unit, unit_len, unit_count, all_bytes}
use route.NullFec.{cut_units, encode_units, null_fec_encode_src_block, null_fec_decode_src_block}

cut_units-Numbered : (n i es_len : ℕ) (left : List ℕ) → Numbered i (cut_units n i es_len left)
unfolding cut_units
cut_units-Numbered zero i es_len left = tt
cut_units-Numbered (suc n) i es_len left =
    (refl, cut_units-Numbered n (i + 1) es_len (drop (unit_len es_len left) left))

take-drop : (n : ℕ) (xs : List ℕ) → take n xs ++ drop n xs ≡ xs
take-drop zero xs = refl
take-drop (suc n) [] = refl
take-drop (suc n) (x ∷ xs) = ap (λ (t : List ℕ). x ∷ t) (take-drop n xs)

-- Together the units have all bytes.
cut_units-bytes :
    (n i es_len : ℕ) (left : List ℕ)
    → length left ≤ n * es_len
    → all_bytes (cut_units n i es_len left) ≡ left
unfolding cut_units
cut_units-bytes zero i es_len [] f = refl
cut_units-bytes zero i es_len (x ∷ left) f = absurd (omega arith)
cut_units-bytes (suc n) i es_len left f =
    let size = unit_len es_len left in
    ap (λ (t : List ℕ). take size left ++ t)
      (cut_units-bytes n (i + 1) es_len (drop size left) (shorter n es_len left f))
    ∙ take-drop size left
  where
    shorter :
        (n es_len : ℕ) (left : List ℕ)
        → length left ≤ suc n * es_len
        → length (drop (unit_len es_len left) left) ≤ n * es_len
    shorter n es_len left f = ground (arith, length-drop (unit_len es_len left) left)

cut_units-Short :
    (n i es_len : ℕ) (left : List ℕ) → es_len < 2 ^ 16 → Short (cut_units n i es_len left)
unfolding cut_units
cut_units-Short zero i es_len left s = tt
cut_units-Short (suc n) i es_len left s =
    (ground arith, cut_units-Short n (i + 1) es_len (drop (unit_len es_len left) left) s)

length-cut_units : (n i es_len : ℕ) (left : List ℕ) → length (cut_units n i es_len left) ≡ n
unfolding cut_units
length-cut_units zero i es_len left = refl
length-cut_units (suc n) i es_len left =
    omega (arith, length-cut_units n (i + 1) es_len (drop (unit_len es_len left) left))

to_last : (u : TransUnit) (us : List TransUnit) → Reordered (u ∷ us) (us ++ u ∷ [])
to_last u [] = as_is
to_last u (v ∷ vs) = and_then (exchange u v vs) (keep v (to_last u vs))

-- What is sent is a reordering of the units from 0 on.
encode_units-Reordered :
    (n es_len : ℕ) (ptr : List ℕ) → Reordered (cut_units n 0 es_len ptr) (encode_units n es_len ptr)
unfolding encode_units cut_units
encode_units-Reordered zero es_len ptr = as_is
encode_units-Reordered (suc zero) es_len ptr = as_is
encode_units-Reordered (suc (suc n)) es_len ptr =
    to_last (cut_unit 0 es_len ptr) (cut_units (suc n) 1 es_len (drop (unit_len es_len ptr) ptr))

-- There are enough units, and not too many.
unit_count-enough :
    (len es_len : ℕ)
    → 0 < es_len
    → len < 2 ^ 32 - 1
    → (len ≤ unit_count len es_len * es_len) × (unit_count len es_len < 2 ^ 32 - 1)
unit_count-enough len es_len p f =
    let sum = div-add-mod' (u32 len + (es_len - 1)) es_len in
    let few = mod-lt (u32 len + (es_len - 1)) {m = es_len} p in
    (
      omega arith,
      (div-lt_iff_lt-mul {k = es_len} {x = u32 len + (es_len - 1)} {y = 2 ^ 32 - 1} p).1
          (omega arith),
    )

-- The bytes of a block whose units have arrived, in whatever order.
arrived-bytes :
    (n es_len : ℕ) (ptr : List ℕ) (us : List TransUnit) (to : TransObj)
    → length ptr ≤ n * es_len
    → n < 2 ^ 32
    → es_len < 2 ^ 16
    → to.rx_bytes ≤ to.len
    → to.len < 2 ^ 63
    → Reordered (encode_units n es_len ptr) us
    → all_bytes (insert_all us (create_block, to)).0.unit_list ≡ ptr
arrived-bytes n es_len ptr us to enough room short bytes len r =
    let units = cut_units n 0 es_len ptr in
    let same =
      insert_all-Reordered create_block to (and_then (encode_units-Reordered n es_len ptr) r)
        (Numbered-Distinct 0 units (cut_units-Numbered n 0 es_len ptr))
        (cut_units-Short n 0 es_len ptr short)
        (record {
          receiving = record { sorted = tt; counted = refl; bounded = bytes };
          room = omega (arith, length-cut_units n 0 es_len ptr);
          bytes = len;
        }) in
    ap (λ (p : TransBlock × TransObj). all_bytes p.0.unit_list) (sym same)
    ∙ ap all_bytes
        (insert_all-Numbered 0 units create_block to (cut_units-Numbered n 0 es_len ptr) tt)
    ∙ cut_units-bytes n 0 es_len ptr enough

-- Bytes come from units.
all_bytes-units : (us : List TransUnit) → 0 < length (all_bytes us) → 0 < length us
all_bytes-units [] l = l
all_bytes-units (u ∷ us) l = omega arith

pub decoded :
    (tb : TransBlock) (len : ℕ)
    → 0 < length tb.unit_list
    → length (all_bytes tb.unit_list) ≤ len
    → len < 2 ^ 32
    → null_fec_decode_src_block tb len
      ≡ some (
        all_bytes tb.unit_list ++ replicate (len - length (all_bytes tb.unit_list)) 0,
        length (all_bytes tb.unit_list),
      )
unfolding null_fec_decode_src_block
decoded tb len u f small = ground arith

decoded-as :
    (tb : TransBlock) (bytes : List ℕ) (len : ℕ)
    → all_bytes tb.unit_list ≡ bytes
    → 0 < length tb.unit_list
    → length bytes ≤ len
    → len < 2 ^ 32
    → null_fec_decode_src_block tb len
      ≡ some (bytes ++ replicate (len - length bytes) 0, length bytes)
decoded-as tb bytes len e u f g = rw (sym e) (decoded tb len u (omega (arith, f, ap length e)) g)

-- A block whose units have arrived has the bytes that were encoded, and some unit.
pub arrived-encoded :
    (ptr : List ℕ) (sbn es_len : ℕ) (tb : TransBlock) (us : List TransUnit) (to : TransObj)
    → null_fec_encode_src_block ptr sbn es_len ≡ some tb
    → Reordered tb.unit_list us
    → es_len < 2 ^ 16
    → 0 < length ptr
    → length ptr < 2 ^ 32 - 1
    → to.rx_bytes ≤ to.len
    → to.len < 2 ^ 63
    → (all_bytes (insert_all us (create_block, to)).0.unit_list ≡ ptr)
      × (0 < length (insert_all us (create_block, to)).0.unit_list)
unfolding null_fec_encode_src_block
arrived-encoded ptr sbn zero tb us to e r short some_bytes f bytes len = absurd (cc)
arrived-encoded ptr sbn (suc es) tb us to e r short some_bytes f bytes len =
    let n = unit_count (length ptr) (suc es) in
    let (enough, room) = unit_count-enough (length ptr) (suc es) (omega arith) f in
    let same =
      arrived-bytes n (suc es) ptr us to enough (omega arith) short bytes len (sent n e r) in
    (
      same,
      all_bytes-units (insert_all us (create_block, to)).0.unit_list
          (omega (arith, some_bytes, ap length same)),
    )
  where
    units_of : Option TransBlock → List TransUnit
    units_of none = []
    units_of (some b) = b.unit_list

    sent :
        (n : ℕ)
        → null_fec_encode_src_block ptr sbn (suc es) ≡ some tb
        → Reordered tb.unit_list us
        → Reordered (encode_units (unit_count (length ptr) (suc es)) (suc es) ptr) us
    sent n e r =
        subst (λ (l : List TransUnit). Reordered l us)
          (sym (ap (λ (o : Option TransBlock). units_of o) e)) r

-- The units into which `null_fec_encode_src_block` cuts the bytes of a block, handed one by one in
-- any order to `insert_unit` for a fresh block, are put together by `null_fec_decode_src_block` to
-- the same bytes, with 0 behind them, and their number, if the length it is given is not smaller;
-- the length of a symbol is not 0 and fits 16 bits, that of the block is not 0 and fits 32 bits, less 1, and
-- the object counts no more bytes than its length, which fits 63 bits.
pub decode-encode_src_block :
    (ptr : List ℕ) (sbn es_len eslen : ℕ) (tb : TransBlock) (us : List TransUnit) (to : TransObj)
    → null_fec_encode_src_block ptr sbn es_len ≡ some tb
    → Reordered tb.unit_list us
    → es_len < 2 ^ 16
    → 0 < length ptr
    → length ptr < 2 ^ 32 - 1
    → length ptr ≤ eslen
    → eslen < 2 ^ 32
    → to.rx_bytes ≤ to.len
    → to.len < 2 ^ 63
    → null_fec_decode_src_block (insert_all us (create_block, to)).0 eslen
      ≡ some (ptr ++ replicate (eslen - length ptr) 0, length ptr)
decode-encode_src_block ptr sbn es_len eslen tb us to e r short some_bytes f g h bytes len =
    let (same, there) = arrived-encoded ptr sbn es_len tb us to e r short some_bytes f bytes len in
    decoded-as (insert_all us (create_block, to)).0 ptr eslen same there (omega arith) (omega arith)
