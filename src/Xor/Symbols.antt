-- ===== src/Xor/Symbols.antt =====
-- The laws of the addition of symbols.
use route.Base.{ℕ, zero, suc, ◌≡◌, refl, arith, ap, List, [], ◌∷◌, length, replicate}
use route.Base.Bits.{xor_comm, xor_assoc, xor_self, zero-xor}
use route.Xor.{padded, xor_symb}

pub length-padded : (n : ℕ) (bytes : List ℕ) → length (padded n bytes) ≡ n
length-padded zero bytes = refl
length-padded (suc n) [] = ap suc (length-padded n [])
length-padded (suc n) (b ∷ bytes) = ap suc (length-padded n bytes)

pub padded_all : (n : ℕ) (bytes : List ℕ) → length bytes ≡ n → padded n bytes ≡ bytes
padded_all zero [] h = refl
padded_all zero (b ∷ bytes) h = absurd (omega arith)
padded_all (suc n) [] h = absurd (omega arith)
padded_all (suc n) (b ∷ bytes) h = ap (λ xs. b ∷ xs) (padded_all n bytes (omega arith))

pub length-xor_symb : (p q : List ℕ) → length (xor_symb p q) ≡ length p
length-xor_symb [] q = refl
length-xor_symb (a ∷ p) [] = refl
length-xor_symb (a ∷ p) (b ∷ q) = ap suc (length-xor_symb p q)

pub zeros-xor_symb : (q : List ℕ) → xor_symb (replicate (length q) 0) q ≡ q
zeros-xor_symb [] = refl
zeros-xor_symb (b ∷ q) = rw (zero-xor b, zeros-xor_symb q) refl

pub xor_symb_self : (p : List ℕ) → xor_symb p p ≡ replicate (length p) 0
xor_symb_self [] = refl
xor_symb_self (a ∷ p) = rw (xor_self a, xor_symb_self p) refl

pub xor_symb_comm : (p q : List ℕ) → length p ≡ length q → xor_symb p q ≡ xor_symb q p
xor_symb_comm [] [] h = refl
xor_symb_comm [] (b ∷ q) h = absurd (omega arith)
xor_symb_comm (a ∷ p) [] h = absurd (omega arith)
xor_symb_comm (a ∷ p) (b ∷ q) h = rw (xor_comm a b, xor_symb_comm p q (omega arith)) refl

pub xor_symb_assoc :
    (p q r : List ℕ)
    → length p ≡ length q
    → length q ≡ length r
    → xor_symb (xor_symb p q) r ≡ xor_symb p (xor_symb q r)
xor_symb_assoc [] q r h k = refl
xor_symb_assoc (a ∷ p) [] r h k = absurd (omega arith)
xor_symb_assoc (a ∷ p) (b ∷ q) [] h k = absurd (omega arith)
xor_symb_assoc (a ∷ p) (b ∷ q) (c ∷ r) h k =
    rw (xor_assoc a b c, xor_symb_assoc p q r (omega arith) (omega arith)) refl
