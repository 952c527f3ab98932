-- ===== src/Blocking/Single.antt =====
-- An object of one block: its structure, and that the updates for symbols of its length leave it as
-- it is.
use route.Base.{
  ltb→lt, Bool-cases, inl, inr, ℕ, ◌^◌, ◌≤◌, ◌<◌, ◌≡◌, refl, ap, ◌∙◌, sym, arith, true, false, some,
  ltb, ◌==◌, leb,
}
use native.Mathlib.Nat.{div-one, mod-one, div_self, mod_self, div-eq_of_lt, mod-eq_of_lt}
use route.Blocking.{
  BlockingStruct, ok, compute_blocking_structure, update_blocking_structure, updated, div,
}
use route.Blocking.Division.{ceiling, div_of_nonneg, lldiv_of_nonneg, rounded_up-eq-ceiling}
use route.Blocking.Partition.{blocking_steps-eq, ceiling-pos, ceiling-le_of_le_mul}

-- `k` symbols of length `e`.
abbrev pub whole_block : ℕ → ℕ → BlockingStruct
whole_block k e = record { n = 1; i = e; a_large = k; a_small = k }

ceiling_one_block : (t b : ℕ) → 0 < t → t ≤ b → ceiling t b ≡ 1
ceiling_one_block t b p l =
    omega (
      arith,
      ceiling-pos t b (omega arith) p,
      ceiling-le_of_le_mul t b 1 (omega arith) (omega arith),
    )

ceiling-by_one : (t : ℕ) → ceiling t 1 ≡ t
ceiling-by_one t = ground arith

not_shorter : (e : ℕ) → ltb e e ≡ false
not_shorter e = ground arith

whole : (t b : ℕ) → t ≤ b → ltb t b ≡ false → t ≡ b
whole t b l x = ground arith

some_symbols : (t : ℕ) → 0 < t → (t == 0) ≡ false
some_symbols t p = ground arith

zero_or_more : (e : ℕ) → leb 0 e ≡ true
zero_or_more e = ground arith

updated-part :
    (e t : ℕ)
    → 0 < t
    → updated
        (whole_block t e)
        e
        e
        false
        (record { quot = 0; rem = t })
        (record { quot = t; rem = 0 })
        1
      ≡ whole_block t e
unfolding updated
updated-part e t p = rw (zero_or_more e, some_symbols t p) refl

updated-full :
    (e t : ℕ)
    → 0 < t
    → updated
        (whole_block t e)
        e
        e
        false
        (record { quot = 1; rem = 0 })
        (record { quot = t; rem = 0 })
        1
      ≡ whole_block t e
unfolding updated
updated-full e t p = rw (zero_or_more e, some_symbols t p) refl

div-part :
    (t b : ℕ)
    → 0 < b
    → t < 2 ^ 31
    → b < 2 ^ 31
    → t < b
    → div t b ≡ some (record { quot = 0; rem = t })
div-part t b p wt wb l = div_of_nonneg t b p wt wb ∙ rw (div-eq_of_lt l, mod-eq_of_lt l) refl

div-full : (t : ℕ) → 0 < t → t < 2 ^ 31 → div t t ≡ some (record { quot = 1; rem = 0 })
div-full t p wt = div_of_nonneg t t p wt wt ∙ rw (div_self p, mod_self t) refl

div-by_one : (t : ℕ) → t < 2 ^ 31 → div t 1 ≡ some (record { quot = t; rem = 0 })
div-by_one t wt = div_of_nonneg t 1 (omega arith) wt (omega arith) ∙ rw (div-one t, mod-one t) refl

module _ (l e : ℕ) (le : 0 < e) (ll : 0 < l) (we : e < 2 ^ 32) (wl : l < 2 ^ 63)
    (wt : ceiling l e < 2 ^ 31) where
  abbrev bs : BlockingStruct
  bs = whole_block (ceiling l e) e

  some_symbol : 0 < ceiling l e
  some_symbol = ceiling-pos l e le ll

  update-part :
      (b : ℕ) → b < 2 ^ 31 → ceiling l e < b → update_blocking_structure bs l b e ≡ some (bs, false)
  unfolding update_blocking_structure
  update-part b wb x =
      rw
        (
          not_shorter e,
          lldiv_of_nonneg l e le wl we,
          rounded_up-eq-ceiling l e (omega arith),
          div-part (ceiling l e) b (omega arith) wt wb x,
          div-by_one (ceiling l e) wt,
        )
        (ap (λ r. some (r, false)) (updated-part e (ceiling l e) some_symbol))

  update-full : update_blocking_structure bs l (ceiling l e) e ≡ some (bs, false)
  unfolding update_blocking_structure
  update-full =
      rw
        (
          not_shorter e,
          lldiv_of_nonneg l e le wl we,
          rounded_up-eq-ceiling l e (omega arith),
          div-full (ceiling l e) some_symbol wt,
          div-by_one (ceiling l e) wt,
        )
        (ap (λ r. some (r, false)) (updated-full e (ceiling l e) some_symbol))

  pub update-whole_block :
      (b : ℕ) → b < 2 ^ 31 → ceiling l e ≤ b → update_blocking_structure bs l b e ≡ some (bs, false)
  update-whole_block b wb one = elim (Bool-cases (ltb (ceiling l e) b)) [
    | inl x ↦ update-part b wb (ltb→lt (ceiling l e) b x)
    | inr x ↦
        ap (λ (m : ℕ). update_blocking_structure bs l m e) (sym (whole (ceiling l e) b one x))
        ∙ update-full
  ]

  pub compute-whole_block :
      (b : ℕ) → b < 2 ^ 31 → ceiling l e ≤ b → compute_blocking_structure true l b e ≡ ok bs
  unfolding compute_blocking_structure
  compute-whole_block b wb one =
      let t = ceiling l e in
      rw
        (
          blocking_steps-eq l b e le (omega (arith, some_symbol)) ll we wb wl wt,
          ceiling_one_block t b some_symbol one,
          ceiling-by_one t,
        )
        (rw (div-one t) refl)
