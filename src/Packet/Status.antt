-- ===== src/Packet/Status.antt =====
-- The result of reading a part of a packet: alclib/defines.h and the early returns of
-- `parse_packet`.
use route.Base.{Bool, true, false, ◌≡◌, refl}

-- Why a packet is not passed on. `nothing_to_do` is the early return of OK; `undefined` is a shift
-- by 31 bits or more or a division by zero, which C leaves undefined; `looping` is a loop that has
-- used up its fuel.
pub data Status : Type 0 where
  hdr_error empty_packet dup_packet waiting_fdt nothing_to_do undefined looping : Status

pub data Result {ℓ} (A : Type ℓ) : Type ℓ where
  ok : A → Result A
  stop : Status → Result A

infixl 5 ◌>>=◌ ◌>>◌
abbrev pub ◌>>=◌ {ℓ κ} : {A : Type ℓ} {B : Type κ} → Result A → (A → Result B) → Result B
ok a >>= f = f a
stop s >>= f = stop s

abbrev pub ◌>>◌ {ℓ} : {B : Type ℓ} → Result (Unit {0}) → Result B → Result B
m >> k = m >>= λ _. k

-- An early return, `if (test) return status;`.
abbrev pub stop_if : Bool → Status → Result (Unit {0})
stop_if true s = stop s
stop_if false s = ok tt

-- A part that is followed by others and gives a result has given one itself.
pub bind_ok {ℓ κ} :
    {A : Type ℓ} {B : Type κ} (r : Result A) (f : A → Result B) {b : B}
    → (r >>= f) ≡ ok b
    → (a : A) × (r ≡ ok a) × (f a ≡ ok b)
bind_ok (ok a) f h = (a, refl, h)
bind_ok (stop s) f h = cc

pub stop_if_ok {ℓ} :
    {B : Type ℓ} (t : Bool) (s : Status) (r : Result B) {b : B}
    → (stop_if t s >> r) ≡ ok b
    → (t ≡ false) × (r ≡ ok b)
stop_if_ok true s r h = cc
stop_if_ok false s r h = (refl, h)
