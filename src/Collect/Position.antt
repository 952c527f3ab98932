-- ===== src/Collect/Position.antt =====
-- The place of a symbol in `analyze_packet` of alclib/alc_rx.c lies in the block that it names.
use route.Base.{
  ℕ, zero, suc, ◌+◌, ◌-◌, ◌*◌, ◌/◌, ◌%◌, ◌^◌, ◌<◌, ◌≡◌, ◌≢◌, arith, ltb, ◌==◌, if◌then◌else◌,
  Bool-cases, inl, inr,
}
use native.Mathlib.Nat.{div-add-mod', mod-lt, add-mul-div_right, div-eq_of_lt, div-eq_of_lt-le}
use route.Collect.{FecOti, Lengths, Located, symbol_count}

-- The symbols of block `i`, and those of the blocks before it.
abbrev pub block_length : Lengths → ℕ → ℕ
block_length l i = if ltb i l.jl then l.il else l.is

abbrev pub symbols_before : Lengths → ℕ → ℕ
symbols_before l zero = 0
symbols_before l (suc i) = symbols_before l i + block_length l i

-- The lengths of `n` blocks that the code computes.
record AreLengths (n : ℕ) (l : Lengths) : Type 0 where
  all : l.symcnt ≡ l.is * n + l.jl
  few : l.jl < n
  long : 0 < l.jl → l.il ≡ l.is + 1
  short : l.js ≡ n - l.jl
  fits : n < 2 ^ 32

-- The place is in a block, at an index of it.
pub record IsPlace (n : ℕ) (l : Lengths) (symbol : ℕ) (p : Located) : Type 0 where
  pub block : p.sbn < n
  pub index : p.esi < p.sb_symcnt
  pub length_of : p.sb_symcnt ≡ block_length l p.sbn
  pub place : symbols_before l p.sbn + p.esi ≡ symbol

-- The number of symbols is that of RFC 6330, `ceil(F / T)`, only where the symbol length does not
-- divide the transfer length of the file; otherwise it is one more.
pub symbol_count-ceil :
    (o : FecOti)
    → o.tx ≢ 0
    → o.fx / o.tx < 2 ^ 32 - 1
    → symbol_count o ≡ (o.fx + (o.tx - 1)) / o.tx + (if o.fx % o.tx == 0 then 1 else 0)
unfolding symbol_count
symbol_count-ceil o t b =
    let q = o.fx / o.tx in
    let r = o.fx % o.tx in
    let sum = div-add-mod' o.fx o.tx in
    let few = mod-lt o.fx {m = o.tx} (omega arith) in
    let whole = add-mul-div_right (r + (o.tx - 1)) q {z = o.tx} (omega arith) in
    let same : o.fx + (o.tx - 1) ≡ r + (o.tx - 1) + q * o.tx = omega arith in
    rw (same, whole)
      (elim (Bool-cases (r == 0)) [
        | inl none_left ↦
            let rest = div-eq_of_lt {n = r + (o.tx - 1)} {m = o.tx} (ground arith) in ground arith
        | inr some_left ↦
            let rest =
              div-eq_of_lt-le {k = 1} o.tx {m = r + (o.tx - 1)} (ground arith) (omega arith) in
            ground arith
      ])
