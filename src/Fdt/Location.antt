-- ===== src/Fdt/Location.antt =====
-- A location without other characters than those of ASCII is copied as it is.
use route.Base.{
  ℕ, zero, suc, ◌+◌, ◌<◌, ◌≤◌, ◌≡◌, refl, arith, ap, ◌∙◌, true, false, ◌&&◌, not, List, [], ◌∷◌,
  All, length, leb, ◌==◌,
}
use route.Utf8.{utf8_to_iso}
use route.Utf8.RoundTrip.{next_char-ascii}
use route.Fdt.Instance.{c_string, location_of}

abbrev pub IsAscii : ℕ → Type 0
IsAscii c = (0 < c) × (c < 128)

utf8_to_iso-ascii :
    (fuel count res : ℕ) (cs : List ℕ)
    → All IsAscii cs
    → res + length cs ≤ count
    → length cs ≤ fuel
    → c_string (utf8_to_iso fuel true count res cs).1 ≡ cs
unfolding utf8_to_iso
utf8_to_iso-ascii zero count res [] a h f = ground arith
utf8_to_iso-ascii zero count res (c ∷ cs) a h f = absurd (omega arith)
utf8_to_iso-ascii (suc fuel) count res [] a h f = ground arith
utf8_to_iso-ascii (suc fuel) count res (c ∷ cs) a h f =
    let room : leb count res ≡ false = ground arith in
    let byte : leb c 0xFF ≡ true = ground arith in
    let some_byte : (c == 0) ≡ false = ground arith in
    rw (next_char-ascii c cs a.0.1, room, byte, some_byte)
      (ap (λ (t : List ℕ). c ∷ t)
        (utf8_to_iso-ascii fuel count (res + 1) cs a.1 (omega arith) (omega arith)))

pub location_of-ascii : (cs : List ℕ) → All IsAscii cs → location_of cs ≡ cs
unfolding location_of
location_of-ascii [] a = refl
location_of-ascii (c ∷ cs) a =
    let n = length (c ∷ cs) in
    let some_bytes : (length (c ∷ cs) == 0) ≡ false = ground arith in
    ap (λ b. c_string (utf8_to_iso n (true && not b) n 0 (c ∷ cs)).1) some_bytes
    ∙ utf8_to_iso-ascii (length (c ∷ cs)) (length (c ∷ cs)) 0 (c ∷ cs) a (omega arith) (omega arith)
