-- ===== src/NullFec/Object.antt =====
-- A whole object from its blocks: `null_fec_decode_object` of alclib/null_fec.c.
use route.Base.{
  ℕ, ◌+◌, ◌-◌, ◌^◌, ◌<◌, ◌≤◌, ◌≡◌, refl, arith, ap, ◌∙◌, Option, some, List, [], ◌∷◌, ◌++◌, All,
  length, take, replicate, ltb, false, u32, length-append,
}
use route.Transport.{TransBlock, TransObj}
use route.Xor.{all_bytes}
use route.NullFec.{copied, filled, decode_blocks, null_fec_decode_object}
use route.NullFec.Delivery.{decoded}

-- The bytes of all blocks.
abbrev pub object_bytes : List TransBlock → List ℕ
object_bytes [] = []
object_bytes (tb ∷ rest) = all_bytes tb.unit_list ++ object_bytes rest

decode_blocks-bytes :
    (blocks : List TransBlock) (len left : ℕ)
    → len < 2 ^ 32
    → left ≤ len
    → All (λ tb. 0 < length tb.unit_list) blocks
    → length (object_bytes blocks) ≤ left
    → decode_blocks blocks len left ≡ some (object_bytes blocks)
unfolding decode_blocks
decode_blocks-bytes [] len left f g u h = refl
decode_blocks-bytes (tb ∷ rest) len left f g u h =
    let bytes = all_bytes tb.unit_list in
    let sum = length-append bytes (object_bytes rest) in
    let all = not_less left (length bytes) (omega arith) in
    let others =
      decode_blocks-bytes rest len (left - length bytes) f (omega arith) u.1 (omega arith) in
    let zeros : List ℕ = replicate (len - length bytes) 0 in
    ap (λ (o : Option (List ℕ × ℕ)). copied o left (decode_blocks rest len))
      (decoded tb len u.0 (omega arith) f)
    ∙ rw (all, others, take-append bytes zeros) refl
  where
    not_less : (a b : ℕ) → b ≤ a → ltb a b ≡ false
    not_less a b l = ground arith

    take-append : (xs ys : List ℕ) → take (length xs) (xs ++ ys) ≡ xs
    take-append [] ys = refl
    take-append (x ∷ xs) ys = ap (λ (t : List ℕ). x ∷ t) (take-append xs ys)

-- The object is the bytes of its blocks, one block after the other, and 0 up to the end of the
-- buffer, a byte behind the length of the object, if no block is empty, the bytes are no more than
-- that length, and it fits 32 bits, less 1.
pub decode_object-bytes :
    (to : TransObj)
    → to.len < 2 ^ 32 - 1
    → All (λ tb. 0 < length tb.unit_list) to.block_list
    → length (object_bytes to.block_list) ≤ to.len
    → null_fec_decode_object to
      ≡ some (
        object_bytes to.block_list
            ++ replicate (to.len + 1 - length (object_bytes to.block_list)) 0,
        to.len,
      )
unfolding null_fec_decode_object
decode_object-bytes to f u g =
    ap (filled (u32 (to.len + 1)) to.len)
      (decode_blocks-bytes to.block_list to.len to.len (omega arith) (omega arith) u g)
    ∙ ground arith
