-- ===== src/Xor/Recovery.antt =====
-- One lost symbol of an encoded block is the sum of the others.
use route.Base.{
  ℕ, zero, suc, ◌+◌, ◌<◌, ◌≡◌, refl, arith, ap, sym, ◌∙◌, List, [], ◌∷◌, ◌++◌, length,
  length-replicate, replicate, drop, ◌==◌, inl, inr, Bool-cases,
}
use route.Transport.{TransUnit}
use route.Xor.{
  padded, xor_symb, add_symbols, missing_symb, encode_units, next_parity, cut_unit, block_units,
}
use route.Xor.Symbols.{
  length-padded, padded_all, length-xor_symb, zeros-xor_symb, xor_symb_self, xor_symb_comm,
  xor_symb_assoc,
}

module _ (es_len : ℕ) where
  abbrev zeros : List ℕ
  zeros = replicate es_len 0

  zeros-length : length zeros ≡ es_len
  zeros-length = length-replicate es_len 0

  -- The sum of the symbols of a list of units.
  abbrev pub sum : List TransUnit → List ℕ
  sum [] = zeros
  sum (tu ∷ rest) = xor_symb (padded es_len tu.bytes) (sum rest)

  length-sum : (units : List TransUnit) → length (sum units) ≡ es_len
  length-sum [] = zeros-length
  length-sum (tu ∷ rest) =
      length-xor_symb (padded es_len tu.bytes) (sum rest) ∙ length-padded es_len tu.bytes

  zeros-left : (q : List ℕ) → length q ≡ es_len → xor_symb zeros q ≡ q
  zeros-left q h = rw (sym h) (zeros-xor_symb q)

  zeros-right : (q : List ℕ) → length q ≡ es_len → xor_symb q zeros ≡ q
  zeros-right q h = xor_symb_comm q zeros (h ∙ sym zeros-length) ∙ zeros-left q h

  -- Adding a symbol twice.
  cancel : (p q : List ℕ) → length p ≡ es_len → length q ≡ es_len → xor_symb p (xor_symb p q) ≡ q
  cancel p q h k =
      sym (xor_symb_assoc p p q refl (h ∙ sym k)) ∙ rw (xor_symb_self p, h) (zeros-left q k)

  add_symbols-sum :
      (symb : List ℕ) (units : List TransUnit)
      → length symb ≡ es_len
      → add_symbols es_len symb units ≡ xor_symb symb (sum units)
  add_symbols-sum symb [] h = sym (zeros-right symb h)
  add_symbols-sum symb (tu ∷ rest) h =
      add_symbols-sum (xor_symb symb (padded es_len tu.bytes)) rest
        (length-xor_symb symb (padded es_len tu.bytes) ∙ h)
      ∙ xor_symb_assoc symb (padded es_len tu.bytes) (sum rest)
          (h ∙ sym (length-padded es_len tu.bytes))
          (length-padded es_len tu.bytes ∙ sym (length-sum rest))

  missing_symb-sum : (units : List TransUnit) → missing_symb es_len units ≡ sum units
  unfolding missing_symb
  missing_symb-sum units =
      add_symbols-sum zeros units zeros-length ∙ zeros-left (sum units) (length-sum units)

  -- A unit in the middle can be added first.
  sum-middle :
      (xs ys : List TransUnit) (u : TransUnit)
      → sum (xs ++ u ∷ ys) ≡ xor_symb (padded es_len u.bytes) (sum (xs ++ ys))
  sum-middle [] ys u = refl
  sum-middle (x ∷ xs) ys u =
      let p = padded es_len x.bytes in
      let q = padded es_len u.bytes in
      let pl = length-padded es_len x.bytes in
      let ql = length-padded es_len u.bytes in
      let rest = sum (xs ++ ys) in
      rw (sum-middle xs ys u) (
        sym (xor_symb_assoc p q rest (pl ∙ sym ql) (ql ∙ sym (length-sum (xs ++ ys))))
        ∙ ap (λ t. xor_symb t rest) (xor_symb_comm p q (pl ∙ sym ql))
        ∙ xor_symb_assoc q p rest (ql ∙ sym pl) (pl ∙ sym (length-sum (xs ++ ys))))

  next_parity-sum :
      (i : ℕ) (parity bytes : List ℕ)
      → length parity ≡ es_len
      → ((i ≡ 0) → parity ≡ zeros)
      → next_parity i es_len parity bytes ≡ xor_symb parity (padded es_len bytes)
  next_parity-sum i parity bytes h first = elim (Bool-cases (i == 0)) [
    | inl e ↦
        rw (e, first (ground arith))
          (sym (zeros-left (padded es_len bytes) (length-padded es_len bytes)))
    | inr e ↦ rw e refl
  ]

  -- The parity symbol closes the sum: what was in it before is left.
  encode_units-sum :
      (n i : ℕ) (left parity : List ℕ)
      → length parity ≡ es_len
      → ((i ≡ 0) → parity ≡ zeros)
      → sum (encode_units n i es_len left parity) ≡ parity
  unfolding encode_units
  encode_units-sum zero i left parity h first =
      rw (padded_all es_len parity h) (zeros-right parity h)
  encode_units-sum (suc n) i left parity h first =
      let tu = cut_unit i es_len left in
      let p = padded es_len tu.bytes in
      let pl = length-padded es_len tu.bytes in
      let next = next_parity-sum i parity tu.bytes h first in
      rw
        (
          encode_units-sum n (i + 1) (drop tu.len left) (next_parity i es_len parity tu.bytes)
              (ap length next ∙ length-xor_symb parity p ∙ h) (λ e. absurd (omega arith)),
          next,
        )
        (ap (xor_symb p) (xor_symb_comm parity p (h ∙ sym pl)) ∙ cancel p parity pl h)

-- Take any one unit, a source symbol or the parity symbol, out of an encoded block that has data:
-- the sum that the decoder forms of the others is that unit's symbol, filled up with zeros.
pub missing_symb-encoded :
    (es_len n : ℕ) (ptr : List ℕ) (xs ys : List TransUnit) (u : TransUnit)
    → 0 < n
    → block_units n es_len ptr ≡ xs ++ u ∷ ys
    → missing_symb es_len (xs ++ ys) ≡ padded es_len u.bytes
missing_symb-encoded es_len zero ptr xs ys u h e = absurd (omega arith)
missing_symb-encoded es_len (suc n) ptr xs ys u h e =
    let q = padded es_len u.bytes in
    let ql = length-padded es_len u.bytes in
    let rest = sum es_len (xs ++ ys) in
    let rl = length-sum es_len (xs ++ ys) in
    let closed : xor_symb q rest ≡ replicate es_len 0 =
      sym (sum-middle es_len xs ys u)
      ∙ ap (sum es_len) (sym e)
      ∙ encode_units-sum es_len (suc n) 0 ptr (replicate es_len 0) (zeros-length es_len)
          (λ z. refl) in
    missing_symb-sum es_len (xs ++ ys)
    ∙ sym (cancel es_len q rest ql rl)
    ∙ ap (xor_symb q) closed
    ∙ zeros-right es_len q ql
