-- ===== src/Blocking/Update.antt =====
-- `update_blocking_structure`, which the receiver calls for each packet of an object.
use route.Base.{
  ℕ, ◌+◌, ◌/◌, ◌%◌, ◌^◌, ◌≤◌, ◌<◌, ◌≡◌, ◌↔◌, true, Bool, some, arith, ltb, leb, not, ◌&&◌, refl,
  if◌then◌else◌, ◌==◌, u32,
}
use native.Mathlib.Nat.{div-le_self}
use route.Blocking.{BlockingStruct, update_blocking_structure, updated}
use route.Blocking.Division.{ceiling, div_of_nonneg, lldiv_of_nonneg, rounded_up-eq-ceiling}

abbrev pub at_least_one : ℕ → ℕ
at_least_one n = if n == 0 then 1 else n

-- What a call at a symbol of length `e₀` makes of `bs`, for an object of `t` symbols; `q` is the
-- number of blocks that are full.
pub record FollowsSymbol (bs : BlockingStruct) (t b e₀ : ℕ) (bs' : BlockingStruct) (short : Bool)
    : Type 0 where
  pub short_iff : (short ≡ true) ↔ (e₀ < bs.i)
  pub blocks : bs'.n ≡ at_least_one (ceiling t b)
  pub length : bs'.i ≡ (if short then t % b else e₀)
  pub large : bs'.a_large ≡ (
      if not short && leb (t % at_least_one (t / b)) e₀
      then at_least_one (t / at_least_one (t / b))
      else bs.a_large)

-- The longer of the symbol at hand and the one before it.
abbrev pub symbol_of : BlockingStruct → ℕ → ℕ
symbol_of bs e₀ = if ltb e₀ bs.i then bs.i else e₀

first_count : (x : ℕ) → (if x == 0 then u32 (x + 1) else x) ≡ at_least_one x
first_count x = ground arith

module _ (bs : BlockingStruct) (t b e₀ e : ℕ) (short : Bool) (q : ℕ) where
  pub n-updated :
      0 < b
      → t < 2 ^ 31
      → b < 2 ^ 31
      → t / b ≤ t
      → (updated bs e₀ e short
          (record { quot = t / b; rem = t % b })
          (record { quot = t / q; rem = t % q })
          (at_least_one (t / b))).n
        ≡ at_least_one (ceiling t b)
  unfolding updated
  n-updated lb wt wb h = ground arith

  pub a_large-updated :
      (n : ℕ)
      → e ≡ (if short then bs.i else e₀)
      → (updated bs e₀ e short
          (record { quot = t / b; rem = t % b })
          (record { quot = t / q; rem = t % q })
          n).a_large
        ≡ (if not short && leb (t % q) e₀ then at_least_one (t / q) else bs.a_large)
  unfolding updated
  a_large-updated n h = ground arith

module _ (bs : BlockingStruct) (l b e₀ : ℕ) (lb : 0 < b) (wb : b < 2 ^ 31) (wl : l < 2 ^ 63)
    (pos : 0 < symbol_of bs e₀) (we : symbol_of bs e₀ < 2 ^ 32)
    (wt : ceiling l (symbol_of bs e₀) < 2 ^ 31) where
  abbrev pub t : ℕ
  t = ceiling l (symbol_of bs e₀)

  abbrev pub q : ℕ
  q = at_least_one (t / b)

  abbrev pub result : BlockingStruct
  result =
      updated bs e₀ (symbol_of bs e₀) (ltb e₀ bs.i) (record { quot = t / b; rem = t % b })
        (record { quot = t / q; rem = t % q }) q

  result-FollowsSymbol : FollowsSymbol bs t b e₀ result (ltb e₀ bs.i)
  unfolding updated
  result-FollowsSymbol = record {
    short_iff = ground arith;
    blocks = n-updated bs t b e₀ (symbol_of bs e₀) (ltb e₀ bs.i) q lb wt wb (div-le_self t b);
    length = ground arith;
    large = a_large-updated bs t b e₀ (symbol_of bs e₀) (ltb e₀ bs.i) q q refl;
  }

  -- Where the numbers fit the signed arithmetic of the code, `update_blocking_structure` divides by
  -- no zero and returns; its result is true exactly when the symbol is shorter than the one before;
  -- the number of blocks, the symbol length and the length of the large blocks are those of
  -- `FollowsSymbol`.
  pub update-FollowsSymbol :
      (bs' : BlockingStruct) × (update_blocking_structure bs l b e₀ ≡ some (bs', ltb e₀ bs.i))
      × FollowsSymbol bs (ceiling l (symbol_of bs e₀)) b e₀ bs' (ltb e₀ bs.i)
  unfolding update_blocking_structure
  update-FollowsSymbol = (
    result,
    let small : q < 2 ^ 31 = ground (arith, div-le_self t b) in
        let some_block : 0 < q = ground arith in
        rw (
          lldiv_of_nonneg l (symbol_of bs e₀) pos wl we,
          rounded_up-eq-ceiling l (symbol_of bs e₀) (omega arith),
          div_of_nonneg t b lb wt wb,
          first_count (t / b),
          div_of_nonneg t q some_block wt small,
        ),
    result-FollowsSymbol,
  )
