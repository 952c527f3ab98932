-- ===== src/Packet/Analyze/Extensions.antt =====
-- The header extensions in `analyze_packet` of alclib/alc_rx.c. The FEC encoding id is that of no
-- code: the function sets it so before the loop, whatever the header says. `int exthdrlen` stays
-- at 0 where the source lets it fall below, as in the loop of `parse_packet`.
use route.Base.{
  ℕ, zero, suc, ◌+◌, ◌-◌, ◌*◌, ◌^◌, ◌&&◌, ◌||◌, not, ltb, ◌==◌, if◌then◌else◌, bit_and, u16, u64,
  ◌<<<◌, ◌>>>◌,
}
use route.Wire.{Buffer, read32}
use route.Lct.{ext_fti, ext_fdt, ext_cenc, ext_tol}
use route.Packet.Status.{Result, ok, stop, ◌>>=◌, ◌>>◌, stop_if, hdr_error, looping}
use route.Packet.Extension.{het_of}

abbrev ext_nop : ℕ
ext_nop = 0

abbrev ext_auth : ℕ
ext_auth = 1

abbrev ext_time : ℕ
ext_time = 2

abbrev ext_ntp : ℕ
ext_ntp = 66

abbrev ext_toll : ℕ
ext_toll = 67

-- The variables that the loop sets.
pub record Seen : Type 0 where
  pub hdrlen : ℕ
  pub exthdrlen : ℕ
  pub hel : ℕ
  pub fdt_instance_id : ℕ
  pub content_enc_algo : ℕ
  pub transfer_len : ℕ
  pub fec_inst_id : ℕ
  pub es_len : ℕ
  pub max_sb_len : ℕ

unfoldable pub take_word : ℕ → Seen → Seen
take_word word x = record x {
  hdrlen = x.hdrlen + 4;
  exthdrlen = x.exthdrlen - 1;
  hel = if ltb (het_of word) 128 then bit_and word 0x00FF0000 >>> 16 else x.hel;
}

-- `hdrlen += (hel-1) << 2; exthdrlen -= (hel-1);`
abbrev pub pass_over : Seen → Seen
pass_over x = record x { hdrlen = x.hdrlen + x.hel * 4 - 4; exthdrlen = x.exthdrlen + 1 - x.hel }

-- `(unsigned short)(len - hdrlen - 4)`, for both lengths.
abbrev pub lengths_from : ℕ → Seen → Seen
lengths_from len x =
    let es_len = u16 (len + 2 ^ 16 - (x.hdrlen + 4)) in
    record x { es_len = es_len; max_sb_len = es_len }

-- Of all versions only 0 fails the test of the source.
unfoldable pub see_fdt : ℕ → Seen → Result Seen
see_fdt word x = do
  stop_if (bit_and word 0x00F00000 >>> 20 == 0) hdr_error
  ok (record x { fdt_instance_id = bit_and word 0x000FFFFF })

-- `ZLIB` is 1.
unfoldable pub see_cenc : ℕ → Seen → Result Seen
see_cenc word x = do
  let algo = bit_and word 0x00FF0000 >>> 16
  stop_if (not (bit_and word 0x0000FFFF == 0)) hdr_error
  stop_if (not (algo == 0) && not (algo == 1)) hdr_error
  ok (record x { content_enc_algo = algo })

-- Four words; where both lengths are 0 they are taken from the packet.
unfoldable pub see_fti : ℕ → ℕ → Buffer → Seen → Result Seen
see_fti len word m x = do
  stop_if (not (x.hel == 4)) hdr_error
  let third = read32 m (x.hdrlen + 4)
  stop_if (not (bit_and third 0xFFFF0000 >>> 16 == 0)) hdr_error
  let x' = record x {
    transfer_len = u64 ((bit_and word 0x0000FFFF <<< 16) + read32 m x.hdrlen);
    fec_inst_id = 0;
    es_len = bit_and third 0x0000FFFF;
    max_sb_len = read32 m (x.hdrlen + 8);
    hdrlen = x.hdrlen + 12;
    exthdrlen = x.exthdrlen - 3;
  }
  ok (if (x'.es_len == 0) && (x'.max_sb_len == 0) then lengths_from len x' else x')

unfoldable pub see_ntp : Seen → Result Seen
see_ntp x = do stop_if (not (x.hel == 4)) hdr_error; ok (pass_over x)

unfoldable pub see_toll : ℕ → ℕ → Buffer → Seen → Result Seen
see_toll len word m x = do
  stop_if (not (x.hel == 2)) hdr_error
  ok (
      lengths_from len (record x {
        transfer_len = u64 ((bit_and word 0x0000FFFF <<< 32) + read32 m x.hdrlen);
        hdrlen = x.hdrlen + 4;
        exthdrlen = x.exthdrlen - 1;
      }))

-- The body of the loop. An extension of another type is passed over by one word, whatever length
-- it claims.
unfoldable pub see_extension : ℕ → Buffer → Seen → Result Seen
unfolding take_word see_fdt see_cenc see_fti see_ntp see_toll
see_extension len m x₀ =
    let word = read32 m x₀.hdrlen in
    let het = het_of word in
    let x = take_word word x₀ in
    if het == ext_fdt
    then see_fdt word x
    else if het == ext_cenc
    then see_cenc word x
    else if het == ext_fti
    then see_fti len word m x
    else if het == ext_auth || het == ext_nop || het == ext_time
    then ok (pass_over x)
    else if het == ext_ntp
    then see_ntp x
    else if het == ext_tol
    then ok (lengths_from len (record x { transfer_len = bit_and word 0x00FFFFFF }))
    else if het == ext_toll
    then see_toll len word m x
    else ok x

-- `while (exthdrlen > 0)`, on fuel.
unfoldable pub see_extensions : ℕ → ℕ → Buffer → Seen → Result Seen
see_extensions zero len m x = stop looping
see_extensions (suc fuel) len m x =
    let rest = see_extension len m x >>= see_extensions fuel len m in
    if ltb 0 x.exthdrlen then rest else ok x
