-- ===== src/Blocking/Partition.antt =====
-- `compute_blocking_structure` against the blocking of RFC 3452, but for the number of longer blocks:
-- the fewest blocks that respect the bound, of two lengths that differ by at most one.
use route.Base.{
  ℕ, ◌+◌, ◌-◌, ◌*◌, ◌/◌, ◌%◌, ◌^◌, ◌≤◌, ◌<◌, ◌≡◌, refl, ap, some, true, arith, ◌==◌, inl, inr,
  Bool-cases, ==_iff,
}
use native.Mathlib.Nat.{
  div-add-mod', lt-div-mul-add, lt_of_mul-lt-mul_right, le-mul_of_pos_right, mul_comm, sub-zero,
  zero-div, zero-mod,
}
use route.Blocking.{BlockingStruct, ok, fault, compute_blocking_structure, blocking_steps}
use route.Blocking.Division.{ceiling, div_of_nonneg, lldiv_of_nonneg, rounded_up-eq-ceiling}

-- `t` symbols in blocks of at most `b`, with symbols of length `e`: `t % n` blocks are of the larger
-- length, a number that the structure does not have.
pub record IsPartition (t b e : ℕ) (bs : BlockingStruct) : Type 0 where
  pub symbol_length : bs.i ≡ e
  pub some_block : 0 < bs.n
  pub fewest : (m : ℕ) → t ≤ m * b → bs.n ≤ m
  pub large_fits : bs.a_large ≤ b
  pub close : bs.a_large ≤ bs.a_small + 1
  pub small_le_large : bs.a_small ≤ bs.a_large
  pub covers : t % bs.n * bs.a_large + (bs.n - t % bs.n) * bs.a_small ≡ t

pub ceiling-mul_ge : (a b : ℕ) → 0 < b → a ≤ ceiling a b * b
ceiling-mul_ge a b h = elim (Bool-cases (a % b == 0)) [
  | inl e ↦ rw e (omega (arith, div-add-mod' a b, (==_iff (a % b) 0).0 e))
  | inr e ↦ rw e (omega (arith, lt-div-mul-add {a = a} h))
]

pub ceiling-mul_lt : (a b : ℕ) → 0 < b → ceiling a b * b < a + b
ceiling-mul_lt a b h = elim (Bool-cases (a % b == 0)) [
  | inl e ↦ rw e (omega (arith, div-add-mod' a b))
  | inr e ↦ rw e (ground (arith, div-add-mod' a b))
]

pub ceiling-le_of_le_mul : (a b c : ℕ) → 0 < b → a ≤ c * b → ceiling a b ≤ c
ceiling-le_of_le_mul a b c h k = omega (
  arith,
  lt_of_mul-lt-mul_right b {m = ceiling a b} {n = c + 1} (omega (arith, ceiling-mul_lt a b h)),
)

pub ceiling-pos : (a b : ℕ) → 0 < b → 0 < a → 0 < ceiling a b
ceiling-pos a b h k = ground arith

pub ceiling-le : (a b : ℕ) → 0 < b → ceiling a b ≤ a
ceiling-le a b h = ceiling-le_of_le_mul a b a h (le-mul_of_pos_right a h)

-- `n` parts, of which `r` are one longer.
parts_total : (r d q : ℕ) → r * (q + 1) + d * q ≡ (r + d) * q + r
parts_total r d q = omega arith

split_total : (t n : ℕ) → 0 < n → t % n * ceiling t n + (n - t % n) * (t / n) ≡ t
split_total t n h = elim (Bool-cases (t % n == 0)) [
  | inl e ↦ rw e (
      rw ((==_iff (t % n) 0).0 e, sub-zero)
        (omega (arith, div-add-mod' t n, (==_iff (t % n) 0).0 e)))
  | inr e ↦ rw e (
      omega (
        arith,
        parts_total (t % n) (n - t % n) (t / n),
        ap (λ (m : ℕ). m * (t / n)) (filled (t % n)),
        div-add-mod' t n,
      ))
]
  where
    filled : (r : ℕ) → t % n + (n - t % n) ≡ n
    filled r = omega arith

module _ (l b e : ℕ) (le : 0 < e) (lb : 0 < b) (ll : 0 < l) (we : e < 2 ^ 32) (wb : b < 2 ^ 31)
    (wl : l < 2 ^ 63) (wt : ceiling l e < 2 ^ 31) where
  abbrev pub partition : BlockingStruct
  partition =
      let t = ceiling l e in
      let n = ceiling t b in record { n = n; i = e; a_large = ceiling t n; a_small = t / n }

  some_symbols : 0 < ceiling l e
  some_symbols = ceiling-pos l e le ll

  partition-IsPartition : IsPartition (ceiling l e) b e partition
  partition-IsPartition =
      let t = ceiling l e in
      let n = ceiling t b in
      let pos : 0 < n = ceiling-pos t b lb some_symbols in
      record {
        symbol_length = refl;
        some_block = pos;
        fewest = λ m h. ceiling-le_of_le_mul t b m lb h;
        large_fits =
            ceiling-le_of_le_mul t n b pos (omega (arith, ceiling-mul_ge t b lb, mul_comm n b));
        close = ground arith;
        small_le_large = ground arith;
        covers = split_total t n pos;
      }

  pub blocking_steps-eq : blocking_steps l b e ≡ some partition
  unfolding blocking_steps
  blocking_steps-eq =
      let t = ceiling l e in
      let n = ceiling t b in
      let small : n < 2 ^ 31 = omega (arith, ceiling-le t b lb) in
      let pos : 0 < n = ceiling-pos t b lb some_symbols in
      rw (
        lldiv_of_nonneg l e le wl we,
        rounded_up-eq-ceiling l e (omega arith),
        div_of_nonneg t b lb wt wb,
        rounded_up-eq-ceiling t b (omega arith),
        div_of_nonneg t n pos wt small,
        rounded_up-eq-ceiling t n (omega (arith, ceiling-le t n pos)),
      )

  -- For a transport object that is not empty, and numbers that fit the signed arithmetic of the
  -- code, `compute_blocking_structure` returns the fewest blocks of at most `b` symbols, and two
  -- lengths that differ by at most one, of which the blocks hold exactly the symbols of the object
  -- if the longer ones are as many as the remainder of the symbols by the blocks. That number is not
  -- in the structure: its field `I`, which blocking_alg.h says it is in, is the symbol length.
  pub compute-IsPartition :
      (bs : BlockingStruct) × (compute_blocking_structure true l b e ≡ ok bs)
      × IsPartition (ceiling l e) b e bs
  unfolding compute_blocking_structure
  compute-IsPartition = (partition, rw blocking_steps-eq, partition-IsPartition)

-- Whatever the block and symbol lengths, an object of length 0 makes the code divide by the number
-- of blocks, 0: it does not return a structure.
pub compute-empty :
    (b e : ℕ)
    → 0 < e
    → e < 2 ^ 32
    → 0 < b
    → b < 2 ^ 31
    → compute_blocking_structure true 0 b e ≡ fault
unfolding compute_blocking_structure blocking_steps
compute-empty b e le we lb wb = rw (
  lldiv_of_nonneg 0 e le (omega arith) we,
  zero-div,
  zero-mod,
  div_of_nonneg 0 b lb (omega arith) wb,
  zero-div,
  zero-mod,
)
