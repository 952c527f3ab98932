-- ===== src/Transport/Arrival.antt =====
-- Units that arrive one after the other, each handed to `insert_unit` of alclib/transport.c.
use route.Base.{
  ℕ, ◌+◌, ◌^◌, ◌<◌, ◌≡◌, ◌≢◌, refl, arith, ap, sym, ◌∙◌, List, [], ◌∷◌, ◌++◌, All, length, inl, inr,
}
use route.Transport.{TransUnit, TransBlock, TransObj, insert_unit, with_units, count_bytes}
use route.Transport.Insert.{
  Placed, at_end, after, Outcomes, outcomes, Placed-length, IsReceiving, insert_unit-IsReceiving,
}
use route.Transport.Order.{insert_unit-commutes, insert_fresh}

unfoldable pub insert_all : List TransUnit → TransBlock × TransObj → TransBlock × TransObj
insert_all [] p = p
insert_all (u ∷ us) (tb, to) = insert_all us ((insert_unit u tb to).1, (insert_unit u tb to).2)

-- The units have different symbol numbers.
abbrev pub Distinct : List TransUnit → Type 0
Distinct [] = Unit
Distinct (u ∷ us) = All (λ v. u.esi ≢ v.esi) us × Distinct us

-- The orders in which the same units can arrive: neighbours are exchanged, again and again.
pub data Reordered : List TransUnit → List TransUnit → Type 0 where
  as_is : {us : List TransUnit} → Reordered us us
  keep : (u : TransUnit) {us vs : List TransUnit} → Reordered us vs → Reordered (u ∷ us) (u ∷ vs)
  exchange : (u v : TransUnit) (us : List TransUnit) → Reordered (u ∷ v ∷ us) (v ∷ u ∷ us)
  and_then : {us vs ws : List TransUnit} → Reordered us vs → Reordered vs ws → Reordered us ws

-- There is room for `n` more units.
pub record HasRoom (n : ℕ) (tb : TransBlock) (to : TransObj) : Type 0 where
  pub receiving : IsReceiving tb to
  pub room : length tb.unit_list + n < 2 ^ 32
  pub bytes : to.len < 2 ^ 63

insert_unit-HasRoom :
    (n : ℕ) (u : TransUnit) (tb : TransBlock) (to : TransObj)
    → HasRoom (n + 1) tb to
    → HasRoom n (insert_unit u tb to).1 (insert_unit u tb to).2
unfolding Outcomes
insert_unit-HasRoom n u tb to h =
    let kept = insert_unit-IsReceiving u tb to h.receiving (omega (arith, h.room)) in
    elim (outcomes u tb to h.receiving.sorted) [
      | inl (held, e) ↦ record {
        receiving = kept;
        room = rw e (omega (arith, h.room));
        bytes = rw e (h.bytes);
      }
      | inr (out, fresh, e, p) ↦ record {
        receiving = kept;
        room = rw e (omega (arith, h.room, Placed-length p));
        bytes = rw e (h.bytes);
      }
    ]

-- What holds of all units, and of the symbol numbers, holds in each order.
Reordered-All :
    (P : TransUnit → Type 0) {us vs : List TransUnit} → Reordered us vs → All P us → All P vs
Reordered-All P as_is a = a
Reordered-All P (keep u r) a = (a.0, Reordered-All P r a.1)
Reordered-All P (exchange u v us) a = (a.1.0, (a.0, a.1.1))
Reordered-All P (and_then r s) a = Reordered-All P s (Reordered-All P r a)

Reordered-Distinct : {us vs : List TransUnit} → Reordered us vs → Distinct us → Distinct vs
Reordered-Distinct as_is d = d
Reordered-Distinct (keep u r) d =
    (Reordered-All (λ v. u.esi ≢ v.esi) r d.0, Reordered-Distinct r d.1)
Reordered-Distinct (exchange u v us) d = (((λ e. d.0.0 (sym e)), d.1.0), (d.0.1, d.1.1))
Reordered-Distinct (and_then r s) d = Reordered-Distinct s (Reordered-Distinct r d)

Reordered-length : {us vs : List TransUnit} → Reordered us vs → length us ≡ length vs
Reordered-length as_is = refl
Reordered-length (keep u r) = omega (arith, Reordered-length r)
Reordered-length (exchange u v us) = refl
Reordered-length (and_then r s) = Reordered-length r ∙ Reordered-length s

-- A length is an `unsigned short`.
abbrev pub Short : List TransUnit → Type 0
Short = All (λ u. u.len < 2 ^ 16)

HasRoom-same :
    (n m : ℕ) (tb : TransBlock) (to : TransObj) → n ≡ m → HasRoom n tb to → HasRoom m tb to
HasRoom-same n m tb to e h = rw e at h

-- Units of different symbol numbers leave the same block and the same object in whatever order
-- they arrive, if there is room for them.
pub insert_all-Reordered :
    {us vs : List TransUnit} (tb : TransBlock) (to : TransObj)
    → Reordered us vs
    → Distinct us
    → Short us
    → HasRoom (length us) tb to
    → insert_all us (tb, to) ≡ insert_all vs (tb, to)
unfolding insert_all
insert_all-Reordered tb to as_is d s h = refl
insert_all-Reordered tb to (keep u {us} r) d s h =
    insert_all-Reordered (insert_unit u tb to).1 (insert_unit u tb to).2 r d.1 s.1
      (insert_unit-HasRoom (length us) u tb to (HasRoom-same _ _ tb to (omega arith) h))
insert_all-Reordered tb to (exchange u v us) d s h =
    ap (λ (p : TransBlock × TransObj). insert_all us p)
      (insert_unit-commutes u v tb to h.receiving d.0.0 (omega (arith, h.bytes, s.0, s.1.0)))
insert_all-Reordered tb to (and_then r q) d s h =
    insert_all-Reordered tb to r d s h
    ∙ insert_all-Reordered tb to q (Reordered-Distinct r d)
        (Reordered-All (λ u. u.len < 2 ^ 16) r s) (HasRoom-same _ _ tb to (Reordered-length r) h)

-- The units have the numbers from `i` on, in order.
abbrev pub Numbered : ℕ → List TransUnit → Type 0
Numbered i [] = Unit
Numbered i (u ∷ us) = (u.esi ≡ i) × Numbered (i + 1) us

abbrev Below : ℕ → List TransUnit → Type 0
Below i = All (λ u. u.esi < i)

Placed-Below : (u : TransUnit) (us : List TransUnit) → Below u.esi us → Placed u us (us ++ u ∷ [])
Placed-Below u [] b = at_end
Placed-Below u (v ∷ vs) b = after b.0 (Placed-Below u vs b.1)

Below-next :
    (i : ℕ) (u : TransUnit) (us : List TransUnit)
    → u.esi ≡ i
    → Below i us
    → Below (i + 1) (us ++ u ∷ [])
Below-next i u [] e b = (omega arith, tt)
Below-next i u (v ∷ vs) e b = (omega (arith, b.0), Below-next i u vs e b.1)

append_one :
    (us : List TransUnit) (v : TransUnit) (vs : List TransUnit)
    → (us ++ v ∷ []) ++ vs ≡ us ++ v ∷ vs
append_one [] v vs = refl
append_one (u ∷ us) v vs = ap (λ (t : List TransUnit). u ∷ t) (append_one us v vs)

append_none : (us : List TransUnit) → us ++ [] ≡ us
append_none [] = refl
append_none (u ∷ us) = ap (λ (t : List TransUnit). u ∷ t) (append_none us)

-- In the order of their numbers each goes to the end.
pub insert_all-Numbered :
    (i : ℕ) (us : List TransUnit) (tb : TransBlock) (to : TransObj)
    → Numbered i us
    → Below i tb.unit_list
    → (insert_all us (tb, to)).0.unit_list ≡ tb.unit_list ++ us
unfolding insert_all
insert_all-Numbered i [] tb to n b = sym (append_none tb.unit_list)
insert_all-Numbered i (u ∷ us) tb to n b =
    let at_the_end = insert_fresh u tb to (Placed-Below u tb.unit_list (below i n.0 b)) in
    ap (λ (p : ℕ × TransBlock × TransObj). (insert_all us (p.1, p.2)).0.unit_list) at_the_end
    ∙ insert_all-Numbered (i + 1) us (with_units tb (tb.unit_list ++ u ∷ [])) (count_bytes u to) n.1
        (Below-next i u tb.unit_list n.0 b)
    ∙ append_one tb.unit_list u us
  where
    below : (i : ℕ) → u.esi ≡ i → Below i tb.unit_list → Below u.esi tb.unit_list
    below i e b = rw e b

Numbered-Above : (i j : ℕ) (us : List TransUnit) → i < j → Numbered j us → All (λ v. i ≢ v.esi) us
Numbered-Above i j [] l n = tt
Numbered-Above i j (u ∷ us) l n =
    ((λ e. omega (arith, n.0)), Numbered-Above i (j + 1) us (omega arith) n.1)

pub Numbered-Distinct : (i : ℕ) (us : List TransUnit) → Numbered i us → Distinct us
Numbered-Distinct i [] n = tt
Numbered-Distinct i (u ∷ us) n =
    (Numbered-Above u.esi (i + 1) us (omega (arith, n.0)) n.1, Numbered-Distinct (i + 1) us n.1)
