-- ===== src/Transport/Insert.antt =====
-- `insert_unit`: what a call does to the block and to the object.
use route.Base.{
  ℕ, ◌+◌, ◌^◌, ◌≤◌, ◌<◌, ◌≡◌, ◌↔◌, refl, arith, Bool, true, false, Option, none, some, List, [],
  ◌∷◌, ltb, ◌==◌, ◌||◌, if◌then◌else◌, ltb→lt, length, Bool-cases, Option-cases, inl, inr, ◌⊎◌, ◌%◌,
}
use mathlib.Core.Path.{subst}
use mathlib.Core.List.{Perm}
use mathlib.Core.List.Perm
use route.Transport.{
  TransUnit, TransBlock, TransObj, place_unit, place_from, behind, insert_unit, with_units,
  count_bytes,
}
use route.Transport.Sorted.{Above, IsSorted, Above-trans}

-- The walk over one more unit, also at the end of the list.
pub place_from-cons :
    (tu tmp : TransUnit) (rest : List TransUnit)
    → place_from tu (tmp ∷ rest) ≡ (
        if ltb tu.esi tmp.esi
        then some (tu ∷ tmp ∷ rest)
        else if tu.esi == tmp.esi
        then none
        else behind tmp (place_from tu rest))
unfolding place_unit
place_from-cons tu tmp [] = refl
place_from-cons tu tmp (x ∷ rest) = refl

-- How the walk ends with an insertion.
pub data Placed (tu : TransUnit) : List TransUnit → List TransUnit → Type 0 where
  at_end : Placed tu [] (tu ∷ [])
  before : {u : TransUnit} {us : List TransUnit} → tu.esi < u.esi → Placed tu (u ∷ us) (tu ∷ u ∷ us)
  after :
      {u : TransUnit} {us out : List TransUnit}
      → u.esi < tu.esi
      → Placed tu us out
      → Placed tu (u ∷ us) (u ∷ out)

some_eq : {xs ys : List TransUnit} → some xs ≡ some ys → xs ≡ ys
some_eq e = cc

-- One step of the walk, with the rest of it given.
Placed-step :
    (tu u : TransUnit) (us : List TransUnit) (r : Option (List TransUnit)) {out : List TransUnit}
    → ((xs : List TransUnit) → r ≡ some xs → Placed tu us xs)
    → (if ltb tu.esi u.esi
        then some (tu ∷ u ∷ us)
        else if tu.esi == u.esi
        then none
        else behind u r)
      ≡ some out
    → Placed tu (u ∷ us) out
Placed-step tu u us r {out} rest e = elim (Bool-cases (ltb tu.esi u.esi)) [
  | inl lt ↦ subst (Placed tu (u ∷ us)) (some_eq (rw lt at e)) (before (ltb→lt _ _ lt))
  | inr ge ↦ elim (Bool-cases (tu.esi == u.esi)) [
    | inl eq ↦ absurd (no_value (rw (ge, eq) at e))
    | inr ne ↦ go r rest (above ge ne) (rw (ge, ne) at e)
  ]
]
  where
    no_value : ◌≡◌ {A = Option (List TransUnit)} none (some out) → ⊥
    no_value e = cc

    above : (ltb tu.esi u.esi ≡ false) → ((tu.esi == u.esi) ≡ false) → u.esi < tu.esi
    above p q = ground arith

    go :
        (r : Option (List TransUnit))
        → ((xs : List TransUnit) → r ≡ some xs → Placed tu us xs)
        → u.esi < tu.esi
        → behind u r ≡ some out
        → Placed tu (u ∷ us) out
    go none rest p e = absurd (no_value e)
    go (some xs) rest p e = subst (Placed tu (u ∷ us)) (some_eq e) (after p (rest xs refl))

pub place_from-Placed :
    (tu : TransUnit) (us : List TransUnit) {out : List TransUnit}
    → place_from tu us ≡ some out
    → Placed tu us out
place_from-Placed tu [] e = subst (Placed tu []) (some_eq e) at_end
place_from-Placed tu (u ∷ us) e =
    Placed-step tu u us (place_from tu us) (λ xs e'. place_from-Placed tu us e')
      (rw (place_from-cons tu u us) at e)

Placed-Above :
    (n : ℕ) {tu : TransUnit} {us out : List TransUnit}
    → n < tu.esi
    → Above n us
    → Placed tu us out
    → Above n out
Placed-Above n p a at_end = (p, tt)
Placed-Above n p a (before q) = (p, a)
Placed-Above n p a (after q r) = (a.0, Placed-Above n p a.1 r)

pub Placed-IsSorted :
    {tu : TransUnit} {us out : List TransUnit} → IsSorted us → Placed tu us out → IsSorted out
Placed-IsSorted s at_end = (tt, tt)
Placed-IsSorted s (before {u} {us} q) = ((q, Above-trans _ u.esi us q s.0), s)
Placed-IsSorted s (after {u} q r) = (Placed-Above u.esi q s.0 r, Placed-IsSorted s.1 r)

pub Placed-perm : {tu : TransUnit} {us out : List TransUnit} → Placed tu us out → Perm out (tu ∷ us)
Placed-perm at_end = Perm.refl _
Placed-perm (before q) = Perm.refl _
Placed-perm (after {u} {us} q r) = Perm.trans (Perm.cons u (Placed-perm r)) (Perm.swap _ _ _)

pub Placed-length :
    {tu : TransUnit} {us out : List TransUnit} → Placed tu us out → length out ≡ length us + 1
Placed-length at_end = refl
Placed-length (before q) = omega arith
Placed-length (after q r) = omega (arith, Placed-length r)

-- A symbol number is in the list.
abbrev pub holds : ℕ → List TransUnit → Bool
holds n [] = false
holds n (u ∷ us) = u.esi == n || holds n us

Above-holds : (n m : ℕ) (us : List TransUnit) → Above m us → n ≤ m → holds n us ≡ false
Above-holds n m [] a h = refl
Above-holds n m (u ∷ us) a h = ground (arith, Above-holds n m us a.1 h)

-- In a sorted list the walk finds each duplicate, and nothing else stops it.
pub place_from-none_iff :
    (tu : TransUnit) (us : List TransUnit)
    → IsSorted us
    → (place_from tu us ≡ none) ↔ (holds tu.esi us ≡ true)
place_from-none_iff tu [] s = ground arith
place_from-none_iff tu (u ∷ us) s =
    rw (place_from-cons tu u us)
      (ground (arith, place_from-none_iff tu us s.1, Above-holds tu.esi u.esi us s.0))

-- The state of a block and of its object between packets: the units are in order, without
-- duplicates, and counted; the bytes received do not pass the length of the object.
pub record IsReceiving (tb : TransBlock) (to : TransObj) : Type 0 where
  pub sorted : IsSorted tb.unit_list
  pub counted : tb.nb_of_rx_units ≡ length tb.unit_list
  pub bounded : to.rx_bytes ≤ to.len

-- The two outcomes of a call on a block in order.
unfoldable pub Outcomes : TransUnit → TransBlock → TransObj → Type 0
Outcomes tu tb to =
    ((holds tu.esi tb.unit_list ≡ true) × (insert_unit tu tb to ≡ (1, tb, to)))
    ⊎ ((out : List TransUnit) × (holds tu.esi tb.unit_list ≡ false)
        × (insert_unit tu tb to ≡ (0, with_units tb out, count_bytes tu to))
        × Placed tu tb.unit_list out)

pub outcomes :
    (tu : TransUnit) (tb : TransBlock) (to : TransObj) → IsSorted tb.unit_list → Outcomes tu tb to
unfolding Outcomes insert_unit
outcomes tu tb to s = elim (Option-cases (place_from tu tb.unit_list)) [
  | inl none' ↦ inl ((place_from-none_iff tu tb.unit_list s).0 none', rw none')
  | inr (out, some') ↦
      inr (out, fresh out some', (rw some'), place_from-Placed tu tb.unit_list some')
]
  where
    fresh :
        (out : List TransUnit)
        → place_from tu tb.unit_list ≡ some out
        → holds tu.esi tb.unit_list ≡ false
    fresh out e = ground (arith, place_from-none_iff tu tb.unit_list s)

-- `insert_unit` on a block in order: a unit whose symbol number the block holds is answered by 1,
-- and nothing changes; any other by 0, the block then holds its units and the new one, one more is
-- counted, and the block is in order.
pub insert_unit_lem :
    (tu : TransUnit) (tb : TransBlock) (to : TransObj)
    → IsSorted tb.unit_list
    → let (result, tb', to') = insert_unit tu tb to in
      ((holds tu.esi tb.unit_list ≡ true) × (result ≡ 1) × (tb' ≡ tb) × (to' ≡ to))
      ⊎ ((holds tu.esi tb.unit_list ≡ false)
          × (result ≡ 0)
          × Perm tb'.unit_list (tu ∷ tb.unit_list)
          × (tb'.nb_of_rx_units ≡ (tb.nb_of_rx_units + 1) % 2 ^ 32)
          × IsSorted tb'.unit_list)
unfolding Outcomes
insert_unit_lem tu tb to s = elim (outcomes tu tb to s) [
  | inl (held, e) ↦ rw e (inl (held, refl, refl, refl))
  | inr (out, fresh, e, p) ↦ rw e (inr (fresh, refl, Placed-perm p, refl, Placed-IsSorted s p))
]

-- Every call keeps the block in order and counted, and the received bytes within the object, as
-- long as the count of the block's units fits 32 bits.
pub insert_unit-IsReceiving :
    (tu : TransUnit) (tb : TransBlock) (to : TransObj)
    → IsReceiving tb to
    → length tb.unit_list + 1 < 2 ^ 32
    → IsReceiving (insert_unit tu tb to).1 (insert_unit tu tb to).2
unfolding Outcomes
insert_unit-IsReceiving tu tb to v fits = elim (outcomes tu tb to v.sorted) [
  | inl (held, e) ↦ rw e v
  | inr (out, fresh, e, p) ↦ rw e (record {
    sorted = Placed-IsSorted v.sorted p;
    counted = omega (arith, Placed-length p, v.counted);
    bounded = ground arith;
  })
]
