-- ===== src/Utf8.antt =====
-- Conversions between ISO-8859-1 and UTF-8: flutelib/mad_utf8.c. A string is the list of its bytes
-- without the null character that ends it; what a call stores is the list of the bytes that it
-- writes from the start of the destination on, the null character included. Lengths fit an `int`.
pub mod RoundTrip
pub mod Bounds
mod Tests
use route.Base.{
  ℕ, zero, suc, ◌+◌, ◌-◌, ◌/◌, Bool, true, false, ◌&&◌, List, [], ◌∷◌, ◌++◌, ltb, leb, ◌==◌, not,
  if◌then◌else◌, bit_and, bit_or, ◌<<<◌, ◌>>>◌, get_or, length,
}

-- The number of bytes of a character, by the upper 6 bits of the first.
abbrev pub len_table : List ℕ
len_table =
    1 ∷ 1 ∷ 1 ∷ 1 ∷ 1 ∷ 1 ∷ 1 ∷ 1 ∷ 1 ∷ 1 ∷ 1 ∷ 1 ∷ 1 ∷ 1 ∷ 1 ∷ 1 ∷ 1 ∷ 1 ∷ 1 ∷ 1 ∷ 1 ∷ 1 ∷ 1 ∷ 1
    ∷ 1 ∷ 1 ∷ 1 ∷ 1 ∷ 1 ∷ 1 ∷ 1 ∷ 1 ∷ 0 ∷ 0 ∷ 0 ∷ 0 ∷ 0 ∷ 0 ∷ 0 ∷ 0 ∷ 0 ∷ 0 ∷ 0 ∷ 0 ∷ 0 ∷ 0 ∷ 0 ∷ 0
    ∷ 2 ∷ 2 ∷ 2 ∷ 2 ∷ 2 ∷ 2 ∷ 2 ∷ 2 ∷ 3 ∷ 3 ∷ 3 ∷ 3 ∷ 4 ∷ 4 ∷ 5 ∷ 6 ∷ []

abbrev pub mask_table : List ℕ
mask_table = 0x3F ∷ 0x7F ∷ 0x1F ∷ 0x0F ∷ 0x07 ∷ 0x03 ∷ 0x01 ∷ []

-- The result of a call and the bytes that it stored.
abbrev pub Stored : Type 0
Stored = ℕ × List ℕ

abbrev pub storing : Bool → List ℕ → Stored → Stored
storing true bytes (res, out) = (res, bytes ++ out)
storing false bytes (res, out) = (res, out)

-- The end of both functions.
abbrev pub terminate : Bool → ℕ → ℕ → Stored
terminate store count res = if store && ltb res count then (res, 0 ∷ []) else (res, [])

-- The loop of `x_iso_8859_1s_to_utf8s`; `store` is `utf8str != 0 && count != 0`.
unfoldable pub iso_to_utf8 : Bool → ℕ → ℕ → List ℕ → Stored
iso_to_utf8 store count res [] = terminate store count res
iso_to_utf8 store count res (c ∷ mbstr) =
    let one = iso_to_utf8 store count (res + 1) mbstr in
    let two = iso_to_utf8 store count (res + 2) mbstr in
    if bit_and c 0x80 == 0
    then (if store && leb count res then (res, []) else storing store (c ∷ []) one)
    else if store && leb count (res + 1)
    then (res, [])
    else storing store (bit_or 0xC0 (bit_and 0x03 (c >>> 6)) ∷ bit_or 0x80 (bit_and 0x3F c) ∷ [])
        two

-- The inner loop of `x_utf8s_to_iso_8859_1s`: at most `n` bytes that continue a character.
abbrev pub continued : ℕ → ℕ → List ℕ → ℕ × List ℕ
continued zero u utf8str = (u, utf8str)
continued (suc n) u [] = (u, [])
continued (suc n) u (c ∷ utf8str) =
    if bit_and c 0xC0 == 0x80
    then continued n (bit_or (u <<< 6) (bit_and c 0x3F)) utf8str
    else (u, c ∷ utf8str)

-- The character at the start of a string, and the string behind it. A first byte that starts no
-- character takes up to four others with it.
abbrev pub next_char : ℕ → List ℕ → ℕ × List ℕ
next_char c utf8str =
    let len = get_or len_table (bit_and (c >>> 2) 0x3F) 0 in
    let more = if len == 0 then 4 else len - 1 in
    continued more (bit_and c (get_or mask_table len 0)) utf8str

-- `fuel` bounds the characters; the length of the string is enough.
unfoldable pub utf8_to_iso : ℕ → Bool → ℕ → ℕ → List ℕ → Stored
utf8_to_iso zero store count res utf8str = terminate store count res
utf8_to_iso (suc fuel) store count res [] = terminate store count res
utf8_to_iso (suc fuel) store count res (c ∷ utf8str) =
    let (u, rest) = next_char c utf8str in
    let after = utf8_to_iso fuel store count (res + 1) rest in
    if store && leb count res
    then (res, [])
    else storing store ((if leb u 0xFF then u else 63) ∷ []) after

abbrev pub x_iso_8859_1s_to_utf8s : Bool → List ℕ → ℕ → Stored
x_iso_8859_1s_to_utf8s present mbstr count = iso_to_utf8 (present && not (count == 0)) count 0 mbstr

abbrev pub x_utf8s_to_iso_8859_1s : Bool → List ℕ → ℕ → Stored
x_utf8s_to_iso_8859_1s present utf8str count =
    utf8_to_iso (length utf8str) (present && not (count == 0)) count 0 utf8str
