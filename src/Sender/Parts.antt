-- ===== src/Sender/Parts.antt =====
-- Sums of parts of two lengths, for the blocks of alclib/blocking_alg.c in flutelib/sender.c.
use route.Base.{
  ℕ, suc, ◌+◌, ◌-◌, ◌*◌, ◌%◌, ◌≤◌, ◌<◌, ◌≡◌, refl, ap, ◌∙◌, sym, arith, inl, inr, ltb, ltb→lt,
  Bool-cases,
}
use native.Mathlib.Nat.{mod-lt, mul-mod_right, mul_assoc, mul_comm, mul-le-mul_left}
use mathlib.Core.Path.{subst}

-- A product in another order.
pub turned : (n e a : ℕ) → n * (e * a) ≡ n * a * e
turned n e a = ap (λ (x : ℕ). n * x) (mul_comm e a) ∙ sym (mul_assoc n a e)

rejoined : (r n : ℕ) → r < n → r + (n - r) ≡ n
rejoined r n f = omega arith

parts : (r d a : ℕ) → (r + d) * a ≡ r * a + d * a
parts r d a = omega arith

summed : (r n c : ℕ) → r < n → r * c + (n - r) * c ≡ n * c
summed r n c f = sym (parts r (n - r) c) ∙ ap (λ (m : ℕ). m * c) (rejoined r n f)

-- Together, `r` of `a` and the others of no more than `a`.
pub sum-le : (r n a c : ℕ) → r < n → c ≤ a → r * a + (n - r) * c ≤ n * a
sum-le r n a c f g = omega (arith, mul-le-mul_left (n - r) g, summed r n a f)

lost_by : (e d m c g : ℕ) → e * (c + suc g) + (suc d + m) * c < (e + suc d) * (c + suc g) + m * c
lost_by e d m c g = omega arith

-- Of `r` longer parts only `e` are made.
pub lost :
    (e r n a c t : ℕ) → e < r → r < n → c < a → r * a + (n - r) * c ≡ t → e * a + (n - e) * c < t
lost e r n a c t f g h k =
    subst (λ (x : ℕ). e * a + (n - e) * c < x) k
      (subst (λ (x : ℕ × ℕ × ℕ). e * x.0 + x.1 * c < x.2 * x.0 + (n - r) * c) same
        (lost_by e (r - e - 1) (n - r) c (a - c - 1)))
  where
    above : (c a : ℕ) → c < a → c + suc (a - c - 1) ≡ a
    above c a h = omega arith

    others : (e r n : ℕ) → e < r → r < n → suc (r - e - 1) + (n - r) ≡ n - e
    others e r n f g = omega arith

    same :
        ◌≡◌ {A = ℕ × ℕ × ℕ}
          (c + suc (a - c - 1), suc (r - e - 1) + (n - r), e + suc (r - e - 1))
          (a, n - e, r)
    same = rw (others e r n f g, above c a h, above e r f) refl

-- If something is left, the parts are not all of one length.
pub two_lengths :
    (t n a c : ℕ) → 0 < n → 0 < t % n → c ≤ a → t % n * a + (n - t % n) * c ≡ t → c < a
two_lengths t n a c pos left h k = elim (Bool-cases (ltb c a)) [
  | inl x ↦ ltb→lt c a x
  | inr x ↦
      absurd (omega (arith, left, mul-mod_right n c, ap (λ (y : ℕ). y % n) (all (ground arith))))
]
  where
    all : c ≡ a → n * c ≡ t
    all e = omega (arith, k, ap (λ (x : ℕ). t % n * x) e, summed (t % n) n c (mod-lt t {m = n} pos))
