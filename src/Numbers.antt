-- ===== src/Numbers.antt =====
-- Numbers as text, with the functions of the C library that the program calls: `strtoull` and `atoi`
-- of glibc, where `long` has 64 bits, and what `fprintf` writes for `%llu` and `%u`.
pub mod Decimal
use route.Base.{
  ℕ, zero, suc, ◌+◌, ◌-◌, ◌*◌, ◌/◌, ◌%◌, ◌^◌, Bool, true, false, ◌&&◌, List, [], ◌∷◌, ltb, leb,
  ◌==◌, if◌then◌else◌, min, u32,
}
use route.Text.{skip_space}

unfoldable pub is_digit : ℕ → Bool
is_digit c = leb b'0' c && leb c b'9'

-- The value of the digits behind `v`, and what stands behind them.
unfoldable pub digits : ℕ → List ℕ → ℕ × List ℕ
unfolding is_digit
digits v [] = (v, [])
digits v (c ∷ cs) =
    let rest = digits (v * 10 + (c - b'0')) cs in if is_digit c then rest else (v, c ∷ cs)

-- The digits, whether there are any, and whether the string ends behind them; where there are none,
-- the end pointer is at its start.
pub record Scanned : Type 0 where
  pub negative : Bool
  pub value : ℕ
  pub ended : Bool

abbrev pub is_end : List ℕ → Bool
is_end [] = true
is_end (c ∷ cs) = false

abbrev pub scan_digits : Bool → List ℕ → List ℕ → Scanned
scan_digits negative start [] = record { negative = negative; value = 0; ended = is_end start }
scan_digits negative start (c ∷ cs) =
    let (v, rest) = digits 0 (c ∷ cs) in
    if is_digit c
    then record { negative = negative; value = v; ended = is_end rest }
    else record { negative = negative; value = 0; ended = is_end start }

abbrev pub scan_sign : List ℕ → List ℕ → Scanned
scan_sign start [] = scan_digits false start []
scan_sign start (c ∷ cs) =
    if c == b'-'
    then scan_digits true start cs
    else if c == b'+'
    then scan_digits false start cs
    else scan_digits false start (c ∷ cs)

unfoldable pub scan : List ℕ → Scanned
unfolding digits skip_space
scan text = scan_sign text (skip_space text)

-- The value, whether the end pointer is at the end of the string, and whether `errno` is set to
-- ERANGE.
pub record Converted : Type 0 where
  pub value : ℕ
  pub ended : Bool
  pub erange : Bool

unfoldable pub strtoull : List ℕ → Converted
unfolding scan
strtoull text =
    let s = scan text in
    if ltb (2 ^ 64 - 1) s.value
    then record { value = 2 ^ 64 - 1; ended = s.ended; erange = true }
    else record {
      value = if s.negative then (2 ^ 64 - s.value) % 2 ^ 64 else s.value;
      ended = s.ended;
      erange = false;
    }

-- The pattern of the `int`: the lower half of what `strtol` gives.
unfoldable pub atoi : List ℕ → ℕ
unfolding scan
atoi text =
    let s = scan text in
    u32 (if s.negative then 2 ^ 64 - min s.value (2 ^ 63) else min s.value (2 ^ 63 - 1))

-- The digits of `n`, at most `fuel` of them, before others; 20 are enough for 64 bits.
unfoldable pub digits_before : ℕ → ℕ → List ℕ → List ℕ
digits_before zero n text = text
digits_before (suc fuel) n text = elim (n / 10 == 0) [
  | true ↦ (b'0' + n % 10) ∷ text
  | false ↦ digits_before fuel (n / 10) ((b'0' + n % 10) ∷ text)
]

unfoldable pub decimal : ℕ → List ℕ
unfolding digits_before
decimal n = digits_before 20 n []
