-- ===== src/Utf8/Bounds.antt =====
-- Neither conversion writes past the end of its destination.
use route.Base.{
  ℕ, zero, suc, ◌+◌, ◌≤◌, ◌≡◌, refl, arith, Bool, true, false, ◌&&◌, not, List, [], ◌∷◌, leb, ◌==◌,
  bit_and, length, Bool-cases, inl, inr,
}
use route.Utf8.{
  Stored, next_char, iso_to_utf8, utf8_to_iso, x_iso_8859_1s_to_utf8s, x_utf8s_to_iso_8859_1s,
}

-- At most `count` bytes are stored, `res` of them before.
abbrev Within : ℕ → ℕ → Stored → Type 0
Within count res s = (length s.1 + res ≤ count) × (s.0 ≤ count)

iso_to_utf8-Within :
    (count res : ℕ) (cs : List ℕ) → res ≤ count → Within count res (iso_to_utf8 true count res cs)
unfolding iso_to_utf8
iso_to_utf8-Within count res [] h = ground arith
iso_to_utf8-Within count res (c ∷ cs) h = elim (Bool-cases (bit_and c 0x80 == 0)) [
  | inl e ↦ elim (Bool-cases (leb count res)) [
    | inl f ↦ rw (e, f) (omega arith, h)
    | inr f ↦ rw (e, f) (ground (arith, iso_to_utf8-Within count (res + 1) cs (ground arith)))
  ]
  | inr e ↦ elim (Bool-cases (leb count (res + 1))) [
    | inl f ↦ rw (e, f) (omega arith, h)
    | inr f ↦ rw (e, f) (ground (arith, iso_to_utf8-Within count (res + 2) cs (ground arith)))
  ]
]

utf8_to_iso-Within :
    (fuel count res : ℕ) (cs : List ℕ)
    → res ≤ count
    → Within count res (utf8_to_iso fuel true count res cs)
unfolding utf8_to_iso
utf8_to_iso-Within zero count res cs h = ground arith
utf8_to_iso-Within (suc fuel) count res [] h = ground arith
utf8_to_iso-Within (suc fuel) count res (c ∷ cs) h = elim (Bool-cases (leb count res)) [
  | inl f ↦ rw f (omega arith, h)
  | inr f ↦
      rw f
        (ground (arith, utf8_to_iso-Within fuel count (res + 1) (next_char c cs).1 (ground arith)))
]

stored_none : (cs : List ℕ) (count res : ℕ) → (iso_to_utf8 false count res cs).1 ≡ []
unfolding iso_to_utf8
stored_none [] count res = refl
stored_none (c ∷ cs) count res =
    ground (arith, stored_none cs count (res + 1), stored_none cs count (res + 2))

read_none : (fuel : ℕ) (cs : List ℕ) (count res : ℕ) → (utf8_to_iso fuel false count res cs).1 ≡ []
unfolding utf8_to_iso
read_none zero cs count res = refl
read_none (suc fuel) [] count res = refl
read_none (suc fuel) (c ∷ cs) count res =
    ground (arith, read_none fuel (next_char c cs).1 count (res + 1))

-- Whatever the string, well-formed or not, each conversion writes at most as many bytes as the
-- destination has, and none at all into a destination of no length or a null one.
pub stored-le-count :
    (present : Bool) (cs : List ℕ) (count : ℕ)
    → (length (x_iso_8859_1s_to_utf8s present cs count).1 ≤ count)
      × (length (x_utf8s_to_iso_8859_1s present cs count).1 ≤ count)
      × ((x_iso_8859_1s_to_utf8s false cs count).1 ≡ [])
      × ((x_utf8s_to_iso_8859_1s false cs count).1 ≡ [])
stored-le-count present cs count = elim (Bool-cases (present && not (count == 0))) [
  | inl e ↦ rw e (
    omega (arith, (iso_to_utf8-Within count 0 cs (omega arith)).0),
    omega (arith, (utf8_to_iso-Within (length cs) count 0 cs (omega arith)).0),
    stored_none cs count 0,
    read_none (length cs) cs count 0,
  )
  | inr e ↦
      rw (e, stored_none cs count 0, read_none (length cs) cs count 0)
        (omega arith, omega arith, refl, refl)
]
