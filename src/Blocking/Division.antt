-- ===== src/Blocking/Division.antt =====
-- `div` and `lldiv` on operands that are not negative.
use route.Base.{ℕ, ◌+◌, ◌/◌, ◌%◌, ◌^◌, ◌<◌, ◌≡◌, some, arith, if◌then◌else◌, ◌==◌}
use route.Blocking.{signed_div, lldiv, div, rounded_up}

-- The quotient rounded up.
abbrev pub ceiling : ℕ → ℕ → ℕ
ceiling a b = if a % b == 0 then a / b else a / b + 1

pub div_of_nonneg :
    (a b : ℕ)
    → 0 < b
    → a < 2 ^ 31
    → b < 2 ^ 31
    → div a b ≡ some (record { quot = a / b; rem = a % b })
unfolding signed_div
div_of_nonneg a b pos ha hb = ground arith

pub lldiv_of_nonneg :
    (a b : ℕ)
    → 0 < b
    → a < 2 ^ 63
    → b < 2 ^ 32
    → lldiv a b ≡ some (record { quot = a / b; rem = a % b })
unfolding signed_div
lldiv_of_nonneg a b pos ha hb = ground arith

pub rounded_up-eq-ceiling :
    (a b : ℕ)
    → ceiling a b < 2 ^ 32
    → rounded_up (record { quot = a / b; rem = a % b }) ≡ ceiling a b
rounded_up-eq-ceiling a b h = ground arith
