-- ===== src/Sender/Sizes.antt =====
-- The sizes in bytes of the blocks of flutelib/sender.c, which takes the field `i` of the blocking
-- structure of alclib/blocking_alg.c, the symbol length, for the number of longer blocks.
use route.Base.{
  lt→ltb, le→not-ltb, ℕ, zero, suc, ◌+◌, ◌-◌, ◌*◌, ◌%◌, ◌^◌, ◌≤◌, ◌<◌, ◌≡◌, refl, ap, arith, inl,
  inr, ltb, true, Bool-cases,
}
use native.Mathlib.Nat.{
  mod-lt, sub-zero, mul_comm, mul-le-mul_left, mul-le-mul_right, le-mul_of_pos_right,
}
use route.Blocking.{BlockingStruct, compute_blocking_structure, ok}
use route.Blocking.Division.{ceiling}
use route.Blocking.Partition.{
  IsPartition, compute-IsPartition, ceiling-mul_ge, ceiling-le_of_le_mul, ceiling-mul_lt,
}
use route.Sender.Blocks.{room}
use route.Sender.{Scheme, block_bytes}
use route.Sender.Parts.{turned, sum-le, lost, two_lengths}

-- The numbers of an object of `l` bytes that is sent with `scheme`.
pub record FitsScheme (l : ℕ) (scheme : Scheme) : Type 0 where
  pub some_symbol : 0 < scheme.es_len
  pub some_block : 0 < scheme.max_sb_len
  pub some_bytes : 0 < l
  pub symbol : scheme.es_len < 2 ^ 16
  pub buffer : scheme.es_len * scheme.max_sb_len < 2 ^ 31
  pub bytes : l ≤ 0xFFFFFFFFFFFF
  pub symbols : ceiling l scheme.es_len < 2 ^ 31

module _ (l : ℕ) (scheme : Scheme) (fits : FitsScheme l scheme) where
  pub partition :
      (bs : BlockingStruct) × (compute_blocking_structure true l scheme.max_sb_len scheme.es_len
        ≡ ok bs)
      × IsPartition (ceiling l scheme.es_len) scheme.max_sb_len scheme.es_len bs
  partition =
      compute-IsPartition l scheme.max_sb_len scheme.es_len fits.some_symbol fits.some_block
        fits.some_bytes (omega (arith, fits.symbol))
        (omega (
          arith,
          fits.buffer,
          le-mul_of_pos_right scheme.max_sb_len fits.some_symbol,
          mul_comm scheme.max_sb_len scheme.es_len,
        ))
        (omega (arith, fits.bytes)) fits.symbols

module _ (l : ℕ) (scheme : Scheme) (fits : FitsScheme l scheme) (bs : BlockingStruct)
    (p : IsPartition (ceiling l scheme.es_len) scheme.max_sb_len scheme.es_len bs) where
  pub large-le : scheme.es_len * bs.a_large ≤ scheme.es_len * scheme.max_sb_len
  large-le = mul-le-mul_left scheme.es_len p.large_fits

  small-le : scheme.es_len * bs.a_small ≤ scheme.es_len * bs.a_large
  small-le = mul-le-mul_left scheme.es_len p.small_le_large

  pub block_bytes-le : (k : ℕ) → block_bytes scheme.es_len bs k ≤ scheme.es_len * scheme.max_sb_len
  block_bytes-le k = elim (Bool-cases (ltb k bs.i)) [
    | inl x ↦ rw x (omega (arith, fits.buffer, large-le))
    | inr x ↦ rw x (omega (arith, fits.buffer, large-le, small-le))
  ]

  pub block_bytes-large :
      (k : ℕ) → k < scheme.es_len → block_bytes scheme.es_len bs k ≡ scheme.es_len * bs.a_large
  block_bytes-large k f =
      rw (p.symbol_length, lt→ltb k scheme.es_len f) (omega (arith, fits.buffer, large-le))

  pub block_bytes-small :
      (k : ℕ) → scheme.es_len ≤ k → block_bytes scheme.es_len bs k ≡ scheme.es_len * bs.a_small
  block_bytes-small k f =
      rw (p.symbol_length, le→not-ltb k scheme.es_len f)
        (omega (arith, fits.buffer, large-le, small-le))

  -- Blocks of the larger length are enough for the symbols.
  symbols-covered : ceiling l scheme.es_len ≤ bs.n * bs.a_large
  symbols-covered = omega (
    arith,
    p.covers,
    sum-le (ceiling l scheme.es_len % bs.n) bs.n bs.a_large bs.a_small
        (mod-lt (ceiling l scheme.es_len) {m = bs.n} p.some_block) p.small_le_large,
  )

  pub covered : l ≤ bs.n * (scheme.es_len * bs.a_large)
  covered = omega (
    arith,
    ceiling-mul_ge l scheme.es_len fits.some_symbol,
    mul-le-mul_right scheme.es_len symbols-covered,
    turned bs.n scheme.es_len bs.a_large,
  )

  pub large-pos : 0 < scheme.es_len * bs.a_large
  large-pos = no_zero (scheme.es_len * bs.a_large) (omega (arith, fits.some_bytes, covered))
    where
      no_zero : (q : ℕ) → 0 < bs.n * q → 0 < q
      no_zero zero f = absurd (omega (arith, f))
      no_zero (suc q) f = omega arith

  -- One block less would not be enough.
  fewer : (m : ℕ) → bs.n ≡ suc m → m * scheme.max_sb_len < ceiling l scheme.es_len
  fewer m f = elim (Bool-cases (ltb (m * scheme.max_sb_len) (ceiling l scheme.es_len))) [
    | inl x ↦ ground arith
    | inr x ↦ absurd (omega (arith, p.fewest m (ground arith)))
  ]

  needed_of :
      (m : ℕ) → bs.n ≡ suc m → suc m * (scheme.es_len * bs.a_large) < l + scheme.es_len * bs.a_large
  needed_of m f = omega (
    arith,
    fewer m f,
    mul-le-mul_left m p.large_fits,
    mul-le-mul_right {m = m * bs.a_large + 1} {n = ceiling l scheme.es_len} scheme.es_len
        (omega (arith, fewer m f, mul-le-mul_left m p.large_fits)),
    ceiling-mul_lt l scheme.es_len fits.some_symbol,
    turned m scheme.es_len bs.a_large,
  )

  pub needed : bs.n * (scheme.es_len * bs.a_large) < l + scheme.es_len * bs.a_large
  needed = of_suc bs.n refl
    where
      of_suc :
          (n : ℕ) → bs.n ≡ n → n * (scheme.es_len * bs.a_large) < l + scheme.es_len * bs.a_large
      of_suc zero f = absurd (omega (arith, p.some_block))
      of_suc (suc m) f = needed_of m f

  pub block_bytes-short : (k : ℕ) → block_bytes scheme.es_len bs k < 2 ^ 31
  block_bytes-short k = omega (arith, block_bytes-le k, fits.buffer)

  blocks_eq : bs.n ≡ ceiling (ceiling l scheme.es_len) scheme.max_sb_len
  blocks_eq = omega (
    arith,
    p.fewest (ceiling (ceiling l scheme.es_len) scheme.max_sb_len)
        (ceiling-mul_ge (ceiling l scheme.es_len) scheme.max_sb_len fits.some_block),
    ceiling-le_of_le_mul (ceiling l scheme.es_len) scheme.max_sb_len bs.n fits.some_block
        (omega (arith, symbols-covered, mul-le-mul_left bs.n p.large_fits)),
  )

  -- The blocks before the number `es_len` have the larger length, the others the smaller one.
  room-split :
      (n d k : ℕ)
      → d ≤ n
      → d + k ≡ scheme.es_len
      → room (block_bytes scheme.es_len bs) n k
        ≡ d * (scheme.es_len * bs.a_large) + (n - d) * (scheme.es_len * bs.a_small)
  room-split zero zero k f g = omega arith
  room-split zero (suc d) k f g = absurd (omega arith)
  room-split (suc n) zero k f g = omega (
    arith,
    small_from (suc n) k (omega arith),
    ap (λ (m : ℕ). m * (scheme.es_len * bs.a_small)) (sub-zero (suc n)),
  )
    where
      small_from :
          (n k : ℕ)
          → scheme.es_len ≤ k
          → room (block_bytes scheme.es_len bs) n k ≡ n * (scheme.es_len * bs.a_small)
      small_from zero k f = omega arith
      small_from (suc n) k f =
          omega (arith, block_bytes-small k f, small_from n (k + 1) (omega arith))
  room-split (suc n) (suc d) k f g = omega (
    arith,
    block_bytes-large k (omega arith),
    room-split n d (k + 1) (omega arith) (omega arith),
    ap (λ (m : ℕ). m * (scheme.es_len * bs.a_small)) (less n d),
  )
    where
      less : (n d : ℕ) → suc n - suc d ≡ n - d
      less n d = omega arith

  -- With more longer blocks than that, the symbols of the blocks are fewer than there are.
  symbols-truncated :
      scheme.es_len < ceiling l scheme.es_len % bs.n
      → scheme.es_len * bs.a_large + (bs.n - scheme.es_len) * bs.a_small < ceiling l scheme.es_len
  symbols-truncated many =
      let t = ceiling l scheme.es_len in
      lost scheme.es_len (t % bs.n) bs.n bs.a_large bs.a_small t many
        (mod-lt t {m = bs.n} p.some_block)
        (two_lengths t bs.n bs.a_large bs.a_small p.some_block (omega (arith, many))
          p.small_le_large p.covers)
        p.covers

  pub room-truncated :
      scheme.es_len < ceiling l scheme.es_len % ceiling (ceiling l scheme.es_len) scheme.max_sb_len
      → room (block_bytes scheme.es_len bs) bs.n 0 < l
  room-truncated many =
      let e = scheme.es_len in
      let longer : e < ceiling l e % bs.n = rw blocks_eq many in
      let fewer_symbols = symbols-truncated longer in
      omega (
        arith,
        room-split bs.n e 0 (omega (arith, mod-lt (ceiling l e) {m = bs.n} p.some_block, longer))
            (omega arith),
        mul-le-mul_right {m = e * bs.a_large + (bs.n - e) * bs.a_small + 1} {n = ceiling l e} e
            (omega (arith, fewer_symbols)),
        ceiling-mul_lt l e fits.some_symbol,
        regrouped e bs.a_large (bs.n - e) bs.a_small,
      )
    where
      regrouped : (e a n c : ℕ) → (e * a + n * c + 1) * e ≡ e * (e * a) + n * (e * c) + e
      regrouped e a n c = omega arith
