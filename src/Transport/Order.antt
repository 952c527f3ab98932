-- ===== src/Transport/Order.antt =====
-- `insert_unit`: the order in which packets arrive leaves no trace in the list of units.
use route.Base.{
  ℕ, ◌+◌, ◌<◌, ◌≤◌, ◌^◌, ◌≡◌, ◌≢◌, refl, arith, ap, sym, true, some, List, inl, inr, ◌⊎◌,
}
use route.Transport.{
  TransUnit, TransBlock, TransObj, place_from, insert_unit, with_units, count_bytes,
}
use route.Transport.Sorted.{IsSorted}
use route.Transport.Insert.{
  place_from-cons, Placed, at_end, before, after, holds, place_from-none_iff, Outcomes, outcomes,
  Placed-IsSorted, IsReceiving,
}

-- Two insertions into one list meet again.
Meets : TransUnit → TransUnit → List TransUnit → List TransUnit → Type 0
Meets a b x y = (z : List TransUnit) × Placed b x z × Placed a y z

distinct-cases : (n m : ℕ) → n ≢ m → (n < m) ⊎ (m < n)
distinct-cases n m ne = grind arith

diamond :
    (a b : TransUnit)
    → a.esi ≢ b.esi
    → {us x y : List TransUnit} → Placed a us x
    → Placed b us y
    → Meets a b x y
unfolding Meets
diamond a b ne at_end at_end = elim (distinct-cases a.esi b.esi ne) [
  | inl lt ↦ (_, after lt at_end, before lt)
  | inr gt ↦ (_, before gt, after gt at_end)
]
diamond a b ne (before p) (before q) = elim (distinct-cases a.esi b.esi ne) [
  | inl lt ↦ (_, after lt (before q), before lt)
  | inr gt ↦ (_, before gt, after gt (before p))
]
diamond a b ne (before p) (after q r) = (_, after (omega arith) (after q r), before p)
diamond a b ne (after p r) (before q) = (_, before q, after (omega arith) (after p r))
diamond a b ne (after p r) (after q s) =
    let (z, f, g) = diamond a b ne r s in (_, after q f, after p g)

-- The walk finds the place.
Placed-place_from :
    {tu : TransUnit} {us out : List TransUnit} → Placed tu us out → place_from tu us ≡ some out
Placed-place_from at_end = refl
Placed-place_from {tu} (before {u} {us} p) = rw (place_from-cons tu u us) (ground arith)
Placed-place_from {tu} (after {u} {us} p r) =
    rw (place_from-cons tu u us, Placed-place_from r) (ground arith)

pub Placed-holds :
    (n : ℕ) {tu : TransUnit} {us out : List TransUnit}
    → tu.esi ≢ n
    → Placed tu us out
    → holds n out ≡ holds n us
Placed-holds n ne at_end = ground arith
Placed-holds n ne (before p) = ground arith
Placed-holds n ne (after p r) = ground (arith, Placed-holds n ne r)

insert_held :
    (u : TransUnit) (tb : TransBlock) (to : TransObj)
    → IsSorted tb.unit_list
    → holds u.esi tb.unit_list ≡ true
    → insert_unit u tb to ≡ (1, tb, to)
unfolding insert_unit
insert_held u tb to s h = rw ((place_from-none_iff u tb.unit_list s).1 h) refl

pub insert_fresh :
    (u : TransUnit) (tb : TransBlock) (to : TransObj) {out : List TransUnit}
    → Placed u tb.unit_list out
    → insert_unit u tb to ≡ (0, with_units tb out, count_bytes u to)
unfolding insert_unit
insert_fresh u tb to p = rw (Placed-place_from p) refl

rx_bytes-commutes :
    (a b : TransUnit) (to : TransObj)
    → to.rx_bytes ≤ to.len
    → to.len + a.len + b.len < 2 ^ 64
    → count_bytes b (count_bytes a to) ≡ count_bytes a (count_bytes b to)
rx_bytes-commutes a b to h fits = ap (λ n. record to { rx_bytes = n }) (ground arith)

-- The block and the object after two calls.
abbrev pub insert_both : TransUnit → TransUnit → TransBlock → TransObj → TransBlock × TransObj
insert_both a b tb to =
    let (result, tb', to') = insert_unit a tb to in
    let (result', tb'', to'') = insert_unit b tb' to' in (tb'', to'')

-- On a block in order, two units of different symbol numbers leave the same block and the same
-- object whichever of them arrives first, as long as the byte count does not leave 64 bits.
pub insert_unit-commutes :
    (a b : TransUnit) (tb : TransBlock) (to : TransObj)
    → IsReceiving tb to
    → a.esi ≢ b.esi
    → to.len + a.len + b.len < 2 ^ 64
    → insert_both a b tb to ≡ insert_both b a tb to
unfolding Outcomes Meets
insert_unit-commutes a b tb to v ne fits = elim (outcomes a tb to v.sorted) [
  | inl (ha, ea) ↦ elim (outcomes b tb to v.sorted) [
    | inl (hb, eb) ↦ rw (ea, eb, ea) refl
    | inr (y, fb, eb, q) ↦
        rw
          (
            ea,
            eb,
            insert_held a (with_units tb y) (count_bytes b to) (Placed-IsSorted v.sorted q)
                (rw (Placed-holds a.esi (λ e. ne (sym e)) q) ha),
          )
          refl
  ]
  | inr (x, fa, ea, p) ↦ elim (outcomes b tb to v.sorted) [
    | inl (hb, eb) ↦
        rw
          (
            ea,
            eb,
            insert_held b (with_units tb x) (count_bytes a to) (Placed-IsSorted v.sorted p)
                (rw (Placed-holds b.esi ne p) hb),
            ea,
          )
          refl
    | inr (y, fb, eb, q) ↦
        let (z, f, g) = diamond a b ne p q in
        rw
          (
            ea,
            eb,
            insert_fresh b (with_units tb x) (count_bytes a to) f,
            insert_fresh a (with_units tb y) (count_bytes b to) g,
            rx_bytes-commutes a b to v.bounded fits,
          )
          refl
  ]
]
