-- ===== src/Numbers/Decimal.antt =====
-- A number that `fprintf` has written is read back by `strtoull` and `atoi`.
use route.Base.{
  ℕ, zero, suc, ◌+◌, ◌*◌, ◌/◌, ◌%◌, ◌^◌, ◌<◌, ◌≡◌, refl, arith, true, false, ◌∙◌, ap, List, [], ◌∷◌,
  ◌==◌, Bool-cases, inl, inr, ◌⊎◌, ◌≢◌,
}
use native.Mathlib.Nat.{pow-suc}
use route.Text.{skip_space, is_space}
use route.Numbers.{is_digit, digits, Scanned, scan, strtoull, atoi, digits_before, decimal, is_end}

digits-digit :
    (v n : ℕ) (text : List ℕ) → digits v ((b'0' + n % 10) ∷ text) ≡ digits (v * 10 + n % 10) text
unfolding digits is_digit
digits-digit v n text = ground arith

pub last_digit :
    (fuel n : ℕ) (text : List ℕ)
    → (n / 10 == 0) ≡ true
    → digits_before (suc fuel) n text ≡ (b'0' + n % 10) ∷ text
unfolding digits_before
last_digit fuel n text e = rw (e, digits_before) refl

pub more_digits :
    (fuel n : ℕ) (text : List ℕ)
    → (n / 10 == 0) ≡ false
    → digits_before (suc fuel) n text ≡ digits_before fuel (n / 10) ((b'0' + n % 10) ∷ text)
unfolding digits_before
more_digits fuel n text e = rw (e, digits_before) refl

digits-digits_before :
    (fuel n : ℕ) (text : List ℕ)
    → n < 10 ^ fuel
    → digits 0 (digits_before fuel n text) ≡ digits n text
unfolding digits_before
digits-digits_before zero n text l = let none_left : n ≡ 0 = omega arith in rw none_left refl
digits-digits_before (suc fuel) n text l =
    let smaller : n / 10 < 10 ^ fuel = omega (arith, pow-suc 10 fuel) in
    elim (Bool-cases (n / 10 == 0)) [
      | inl last ↦
          rw (last_digit fuel n text last)
            (digits-digit 0 n text ∙ ap (λ k. digits k text) (one_digit last))
      | inr more ↦ rw (more_digits fuel n text more) (
          digits-digits_before fuel (n / 10) ((b'0' + n % 10) ∷ text) smaller
          ∙ digits-digit (n / 10) n text
          ∙ ap (λ k. digits k text) (value n))
    ]
  where
    one_digit : (n / 10 == 0) ≡ true → 0 * 10 + n % 10 ≡ n
    one_digit e = ground arith

    value : (n : ℕ) → n / 10 * 10 + n % 10 ≡ n
    value n = omega arith

-- The first character.
abbrev BeginsWithDigit : List ℕ → Type 0
BeginsWithDigit [] = ⊥
BeginsWithDigit (c ∷ cs) = is_digit c ≡ true

digit-is_digit : (n : ℕ) → is_digit (b'0' + n % 10) ≡ true
unfolding is_digit
digit-is_digit n = ground arith

digits_before-BeginsWithDigit :
    (fuel n : ℕ) (text : List ℕ)
    → BeginsWithDigit text ⊎ (fuel ≢ 0)
    → BeginsWithDigit (digits_before fuel n text)
unfolding digits_before
digits_before-BeginsWithDigit zero n text (inl b) = b
digits_before-BeginsWithDigit zero n text (inr ne) = absurd (ne refl)
digits_before-BeginsWithDigit (suc fuel) n text h = elim (Bool-cases (n / 10 == 0)) [
  | inl last ↦ rw (last_digit fuel n text last) (digit-is_digit n)
  | inr more ↦ rw (more_digits fuel n text more) (
      digits_before-BeginsWithDigit fuel (n / 10) ((b'0' + n % 10) ∷ text) (inl (digit-is_digit n)))
]

digit-mark :
    (c : ℕ)
    → is_digit c ≡ true
    → (is_space c ≡ false) × ((c == b'-') ≡ false) × ((c == b'+') ≡ false)
unfolding is_digit is_space
digit-mark c d = ground arith

abbrev scanned : ℕ × List ℕ → Scanned
scanned (v, rest) = record { negative = false; value = v; ended = is_end rest }

scan-digit : (text : List ℕ) → BeginsWithDigit text → scan text ≡ scanned (digits 0 text)
unfolding scan skip_space
scan-digit [] b = absurd b
scan-digit (c ∷ cs) b =
    let (no_space, no_minus, no_plus) = digit-mark c b in rw (no_space, no_minus, no_plus, b) refl

scan-decimal :
    (n : ℕ) → n < 10 ^ 20 → scan (decimal n) ≡ record { negative = false; value = n; ended = true }
unfolding decimal digits
scan-decimal n l =
    scan-digit (decimal n) (digits_before-BeginsWithDigit 20 n [] (inr (λ e. omega arith)))
    ∙ ap scanned (digits-digits_before 20 n [] l)

-- A number of 64 bits comes back from its digits, which are the whole string.
pub strtoull-decimal :
    (n : ℕ) → n < 2 ^ 64 → strtoull (decimal n) ≡ record { value = n; ended = true; erange = false }
unfolding strtoull
strtoull-decimal n l = rw (scan-decimal n (omega arith)) (ground arith)

pub atoi-decimal : (n : ℕ) → n < 2 ^ 32 → atoi (decimal n) ≡ n
unfolding atoi
atoi-decimal n l = rw (scan-decimal n (omega arith)) (ground arith)
