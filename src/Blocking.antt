-- ===== src/Blocking.antt =====
-- The source blocking of a transport object: alclib/blocking_alg.c and blocking_alg.h.
-- An `int` and a `long long` are bit patterns; a call of `div` or `lldiv` with a zero divisor, or
-- with a quotient out of range, is the result `fault`.
pub mod Division
pub mod Partition
pub mod Update
pub mod Single
mod Tests
use route.Base.{
  ℕ, ◌+◌, ◌-◌, ◌/◌, ◌%◌, ◌^◌, Bool, true, false, ◌&&◌, not, Option, none, some, ltb, leb, ◌==◌,
  if◌then◌else◌, u32,
}

-- `blocking_struct_t`
pub record BlockingStruct : Type 0 where
  pub n : ℕ
  pub i : ℕ
  pub a_large : ℕ
  pub a_small : ℕ

-- `div_t` and `lldiv_t`, as patterns of the width of the operands.
pub record Quotient : Type 0 where
  pub quot : ℕ
  pub rem : ℕ

-- The absolute value of a signed pattern of `w` bits, and its sign.
abbrev pub magnitude : ℕ → ℕ → ℕ
magnitude w x = if ltb x (2 ^ (w - 1)) then x else 2 ^ w - x

abbrev pub negative : ℕ → ℕ → Bool
negative w x = leb (2 ^ (w - 1)) x

abbrev pub signed : ℕ → Bool → ℕ → ℕ
signed w minus m = if minus then (2 ^ w - m) % 2 ^ w else m

-- C division of signed numbers of `w` bits: it truncates, and the remainder has the sign of `a`.
unfoldable pub signed_div : ℕ → ℕ → ℕ → Option Quotient
signed_div w a b =
    if b == 0
    then none
    else if (a == 2 ^ (w - 1)) && (b == 2 ^ w - 1)
    then none
    else some (record {
      quot =
          signed w (if negative w a then not (negative w b) else negative w b)
            (magnitude w a / magnitude w b);
      rem = signed w (negative w a) (magnitude w a % magnitude w b);
    })

abbrev pub lldiv : ℕ → ℕ → Option Quotient
lldiv = signed_div 64

abbrev pub div : ℕ → ℕ → Option Quotient
div = signed_div 32

infixl 5 ◌>>=◌
abbrev pub ◌>>=◌ : {A B : Type 0} → Option A → (A → Option B) → Option B
none >>= f = none
some a >>= f = f a

-- `quot`, and one more if something is left. The casts to `unsigned int` are those of the source.
abbrev pub rounded_up : Quotient → ℕ
rounded_up d = if d.rem == 0 then u32 d.quot else u32 (u32 d.quot + 1)

pub data Computed : Type 0 where
  null fault : Computed
  ok : BlockingStruct → Computed

abbrev pub computed : Option BlockingStruct → Computed
computed none = fault
computed (some bs) = ok bs

-- The steps (a) to (e) of RFC 3452, as the source writes them.
unfoldable pub blocking_steps : ℕ → ℕ → ℕ → Option BlockingStruct
unfolding signed_div
blocking_steps l b e = do
  div_t ← lldiv l e
  let t = rounded_up div_t
  div_n ← div t b
  let n = rounded_up div_n
  div_a ← div t n
  some (record { n = n; i = e; a_large = rounded_up div_a; a_small = div_a.quot })

-- `alloc` is the success of `calloc`.
unfoldable pub compute_blocking_structure : Bool → ℕ → ℕ → ℕ → Computed
unfolding blocking_steps
compute_blocking_structure alloc l b e = if alloc then computed (blocking_steps l b e) else null

-- Both branches of step (d) and of the end of `update_blocking_structure`.
unfoldable pub updated : BlockingStruct → ℕ → ℕ → Bool → Quotient → Quotient → ℕ → BlockingStruct
updated bs e₀ e short div_n div_a n = record {
  n =
      if ltb 0 div_n.quot
        && ltb div_n.quot (2 ^ 31)
        && not (div_n.rem == 0)
        && ltb div_n.rem (2 ^ 31)
      then u32 (n + 1)
      else n;
  i = if short then div_n.rem else e₀;
  a_large =
      if leb div_a.rem e && not short
      then (if div_a.quot == 0 then u32 (div_a.quot + 1) else div_a.quot)
      else bs.a_large;
  a_small = if leb div_a.rem e then div_a.quot else bs.a_small;
}

-- The new structure and the result of the call; `none` is a fault.
unfoldable pub update_blocking_structure :
    BlockingStruct → ℕ → ℕ → ℕ → Option (BlockingStruct × Bool)
unfolding signed_div updated
update_blocking_structure bs l b e₀ = do
  let short = ltb e₀ bs.i
  let e = if short then bs.i else e₀
  div_t ← lldiv l e
  let t = rounded_up div_t
  div_n ← div t b
  let n = if div_n.quot == 0 then u32 (div_n.quot + 1) else div_n.quot
  div_a ← div t n
  some (updated bs e₀ e short div_n div_a n, short)
