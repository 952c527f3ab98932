-- ===== src/Utf8/RoundTrip.antt =====
-- ISO-8859-1 through UTF-8 and back.
use route.Base.{
  ℕ, zero, suc, ◌+◌, ◌-◌, ◌*◌, ◌<◌, ◌≤◌, ◌≡◌, refl, sym, arith, Bool, true, false, ◌&&◌, not, List,
  [], ◌∷◌, ◌++◌, All, ltb, leb, ◌==◌, if◌then◌else◌, ltb→lt, ==_iff, bit_and, bit_or, ◌<<<◌, ◌>>>◌,
  get_or, length, Bool-cases, inl, inr,
}
use route.Utf8.{
  len_table, next_char, iso_to_utf8, utf8_to_iso, x_iso_8859_1s_to_utf8s, x_utf8s_to_iso_8859_1s,
}

-- A test holds for the numbers below `n`.
abbrev all_below : ℕ → (ℕ → Bool) → Bool
all_below zero f = true
all_below (suc n) f = f n && all_below n f

all_below-elim : (n : ℕ) (f : ℕ → Bool) → all_below n f ≡ true → (c : ℕ) → c < n → f c ≡ true
all_below-elim zero f e c h = absurd (omega arith)
all_below-elim (suc n) f e c h = elim (Bool-cases (c == n)) [
  | inl eq ↦ rw ((==_iff c n).0 eq) (ground arith)
  | inr ne ↦ all_below-elim n f (ground arith) c (ground arith)
]

abbrev lead : ℕ → ℕ
lead c = bit_or 0xC0 (bit_and 0x03 (c >>> 6))

abbrev tail : ℕ → ℕ
tail c = bit_or 0x80 (bit_and 0x3F c)

-- What the two functions do with a byte, by the values of their tests.
abbrev ascii : ℕ → Bool
ascii c =
    (bit_and c 0x80 == 0)
    && (get_or len_table (bit_and (c >>> 2) 0x3F) 0 == 1)
    && (bit_and c 0x7F == c)

abbrev wide : ℕ → Bool
wide c =
    not (bit_and c 0x80 == 0)
    && ltb 0 (lead c)
    && ltb 0 (tail c)
    && (get_or len_table (bit_and (lead c >>> 2) 0x3F) 0 == 2)
    && (bit_and (tail c) 0xC0 == 0x80)
    && (bit_or (bit_and (lead c) 0x1F <<< 6) (bit_and (tail c) 0x3F) == c)

bytes-ascii : all_below 128 ascii ≡ true
bytes-ascii = refl

bytes-wide : all_below 128 (λ c. wide (128 + c)) ≡ true
bytes-wide = refl

ascii_of : (c : ℕ) → c < 128 → ascii c ≡ true
ascii_of c h = all_below-elim 128 ascii bytes-ascii c h

wide_of : (c : ℕ) → 128 ≤ c → c < 256 → wide c ≡ true
wide_of c h k =
    let e : 128 + (c - 128) ≡ c = omega arith in
    rw (sym e) (all_below-elim 128 (λ c. wide (128 + c)) bytes-wide (c - 128) (omega arith))

pub next_char-ascii : (c : ℕ) (rest : List ℕ) → c < 128 → next_char c rest ≡ (c, rest)
next_char-ascii c rest h = ground (arith, ascii_of c h)

next_char-wide :
    (c : ℕ) (rest : List ℕ) → 128 ≤ c → c < 256 → next_char (lead c) (tail c ∷ rest) ≡ (c, rest)
next_char-wide c rest h k = ground (arith, wide_of c h k)

-- The bytes of a string of ISO-8859-1.
abbrev pub IsByte : ℕ → Type 0
IsByte c = (0 < c) × (c < 256)

-- Such a string in UTF-8.
abbrev encoded : List ℕ → List ℕ
encoded [] = []
encoded (c ∷ cs) = if ltb c 128 then c ∷ encoded cs else lead c ∷ tail c ∷ encoded cs

encoded-non_zero : (cs : List ℕ) → All IsByte cs → All (λ b. 0 < b) (encoded cs)
encoded-non_zero [] v = tt
encoded-non_zero (c ∷ cs) v = elim (Bool-cases (ltb c 128)) [
  | inl e ↦ rw e (v.0.0, encoded-non_zero cs v.1)
  | inr e ↦
      let w = wide_of c (ground arith) v.0.1 in
      rw e (ground arith, (ground arith, encoded-non_zero cs v.1))
]

length-encoded : (cs : List ℕ) → length (encoded cs) ≤ 2 * length cs
length-encoded [] = omega arith
length-encoded (c ∷ cs) = ground (arith, length-encoded cs)

iso_to_utf8-encoded :
    (count res : ℕ) (cs : List ℕ)
    → All IsByte cs
    → res + length (encoded cs) < count
    → iso_to_utf8 true count res cs ≡ (res + length (encoded cs), encoded cs ++ 0 ∷ [])
unfolding iso_to_utf8
iso_to_utf8-encoded count res [] v h = ground arith
iso_to_utf8-encoded count res (c ∷ cs) v h = elim (Bool-cases (ltb c 128)) [
  | inl e ↦
      let a = ascii_of c (ltb→lt _ _ e) in
      let room : res + 1 + length (encoded cs) < count = ground arith in
      rw e (ground (arith, iso_to_utf8-encoded count (res + 1) cs v.1 room))
  | inr e ↦
      let w = wide_of c (ground arith) v.0.1 in
      let room : res + 2 + length (encoded cs) < count = ground arith in
      rw e (ground (arith, iso_to_utf8-encoded count (res + 2) cs v.1 room))
]

utf8_to_iso-encoded :
    (fuel count res : ℕ) (cs : List ℕ)
    → All IsByte cs
    → res + length cs < count
    → length cs ≤ fuel
    → utf8_to_iso fuel true count res (encoded cs) ≡ (res + length cs, cs ++ 0 ∷ [])
unfolding utf8_to_iso
utf8_to_iso-encoded zero count res [] v h f = ground arith
utf8_to_iso-encoded zero count res (c ∷ cs) v h f = absurd (omega arith)
utf8_to_iso-encoded (suc fuel) count res [] v h f = ground arith
utf8_to_iso-encoded (suc fuel) count res (c ∷ cs) v h f =
    let room : leb count res ≡ false = ground arith in
    let byte : leb c 0xFF ≡ true = ground arith in
    let rest = utf8_to_iso-encoded fuel count (res + 1) cs v.1 (omega arith) (omega arith) in
    elim (Bool-cases (ltb c 128)) [
      | inl e ↦
          rw (e, next_char-ascii c (encoded cs) (ltb→lt _ _ e), room, byte, rest) (ground arith)
      | inr e ↦
          rw (e, next_char-wide c (encoded cs) (ground arith) v.0.1, room, byte, rest)
            (ground arith)
    ]

encoded-length : (cs : List ℕ) → length cs ≤ length (encoded cs)
encoded-length [] = omega arith
encoded-length (c ∷ cs) = ground (arith, encoded-length cs)

-- A string of ISO-8859-1, converted to UTF-8 and back into destinations of more than twice its
-- length, comes back; the UTF-8 string between has no null character but the one that ends it.
pub x_utf8s_to_iso_8859_1s-x_iso_8859_1s_to_utf8s :
    (cs : List ℕ) (count : ℕ)
    → All IsByte cs
    → 2 * length cs < count
    → (utf8 : List ℕ) × All (λ b. 0 < b) utf8
      × (x_iso_8859_1s_to_utf8s true cs count ≡ (length utf8, utf8 ++ 0 ∷ []))
      × (x_utf8s_to_iso_8859_1s true utf8 count ≡ (length cs, cs ++ 0 ∷ []))
x_utf8s_to_iso_8859_1s-x_iso_8859_1s_to_utf8s cs count v room =
    let some_room : (count == 0) ≡ false = ground arith in
    (
      encoded cs,
      encoded-non_zero cs v,
      rw some_room
          (ground (arith, iso_to_utf8-encoded count 0 cs v (omega (arith, length-encoded cs)))),
      rw some_room (
          ground (
            arith,
            utf8_to_iso-encoded (length (encoded cs)) count 0 cs v (omega arith)
                (encoded-length cs),
          )),
    )
