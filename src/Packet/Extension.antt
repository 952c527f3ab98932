-- ===== src/Packet/Extension.antt =====
-- The LCT header extensions: the loop of `parse_packet` (alclib/alc_rx.c) over the words between
-- the identifiers and the end of the header. `int exthdrlen` is kept at 0 where the source lets it
-- fall below: the loop only asks whether it is positive, and ends there.
pub mod Termination
pub mod Length
use route.Base.{
  ℕ, zero, suc, ◌+◌, ◌-◌, ◌*◌, Bool, true, false, ◌&&◌, ◌||◌, not, ltb, ◌==◌, if◌then◌else◌,
  bit_and, u8, u64, ◌<<<◌, ◌>>>◌,
}
use route.Wire.{Buffer, read32}
use route.Lct.{ext_fti, ext_fdt, ext_cenc, flute_version}
use route.Packet.Status.{Result, ok, stop, ◌>>=◌, ◌>>◌, stop_if, hdr_error, looping}

-- The FEC encoding ids of alclib/defines.h.
abbrev pub com_no_c_fec_enc_id : ℕ
com_no_c_fec_enc_id = 0

abbrev pub simple_xor_fec_enc_id : ℕ
simple_xor_fec_enc_id = 2

abbrev pub rs_fec_enc_id : ℕ
rs_fec_enc_id = 5

abbrev pub sb_lb_e_fec_enc_id : ℕ
sb_lb_e_fec_enc_id = 128

abbrev pub sb_sys_fec_enc_id : ℕ
sb_sys_fec_enc_id = 129

abbrev pub com_fec_enc_id : ℕ
com_fec_enc_id = 130

abbrev ext_nop : ℕ
ext_nop = 0

abbrev ext_auth : ℕ
ext_auth = 1

abbrev ext_time : ℕ
ext_time = 2

-- The variables that the loop sets.
pub record Ext : Type 0 where
  pub hdrlen : ℕ
  pub exthdrlen : ℕ
  pub hel : ℕ
  pub fdt_instance_id : ℕ
  pub content_enc_algo : ℕ
  pub transfer_len : ℕ
  pub finite_field : ℕ
  pub nb_of_es_per_group : ℕ
  pub fec_inst_id : ℕ
  pub es_len : ℕ
  pub max_sb_len : ℕ
  pub max_nb_of_es : ℕ

-- `het`, the upper 8 bits of the first word.
abbrev pub het_of : ℕ → ℕ
het_of word = bit_and word 0xFF000000 >>> 24

-- The first word is taken; `hel` is kept from before if the type has no length of its own.
unfoldable pub take_word : ℕ → Ext → Ext
take_word word x = record x {
  hdrlen = x.hdrlen + 4;
  exthdrlen = x.exthdrlen - 1;
  hel = if ltb (het_of word) 128 then bit_and word 0x00FF0000 >>> 16 else x.hel;
}

-- An extension that is passed over: `hdrlen += (hel-1) << 2; exthdrlen -= (hel-1);`. At this point
-- `hdrlen` is at least 4, so a length of 0 takes the word back.
unfoldable pub pass_over : Ext → Ext
pass_over x = record x { hdrlen = x.hdrlen + x.hel * 4 - 4; exthdrlen = x.exthdrlen + 1 - x.hel }

unfoldable pub read_fdt : ℕ → Ext → Result Ext
read_fdt word x = do
  stop_if (not (bit_and word 0x00F00000 >>> 20 == flute_version)) hdr_error
  ok (record x { fdt_instance_id = bit_and word 0x000FFFFF })

-- `ZLIB` is 1.
unfoldable pub read_cenc : ℕ → Ext → Result Ext
read_cenc word x = do
  let algo = bit_and word 0x00FF0000 >>> 16
  stop_if (not (bit_and word 0x0000FFFF == 0)) hdr_error
  stop_if (not (algo == 0) && not (algo == 1)) hdr_error
  ok (record x { content_enc_algo = algo })

-- The third word of an FTI extension, `word`.
unfoldable pub read_fec_inst_id : ℕ → ℕ → Ext → Result Ext
read_fec_inst_id fec_enc_id word x = do
  let inst = bit_and word 0xFFFF0000 >>> 16
  stop_if
      ((fec_enc_id == com_no_c_fec_enc_id || fec_enc_id == simple_xor_fec_enc_id)
        && not (inst == 0))
      hdr_error
  stop_if (fec_enc_id == sb_sys_fec_enc_id && not (inst == 0)) hdr_error
  ok (record x { fec_inst_id = inst })

unfoldable pub read_fti_scheme : ℕ → ℕ → Ext → Result Ext
unfolding read_fec_inst_id
read_fti_scheme fec_enc_id word x =
    if fec_enc_id == rs_fec_enc_id
    then ok (record x {
      finite_field = bit_and word 0xFF000000 >>> 24;
      nb_of_es_per_group = u8 (bit_and word 0x00FF0000 >>> 16);
    })
    else read_fec_inst_id fec_enc_id word x

-- The fourth word, read at `hdrlen`, with the lower half of the third.
unfoldable pub read_fti_lengths : ℕ → ℕ → Buffer → Ext → Ext
read_fti_lengths fec_enc_id word m x =
    if fec_enc_id == com_no_c_fec_enc_id
      || fec_enc_id == simple_xor_fec_enc_id
      || fec_enc_id == sb_lb_e_fec_enc_id
      || fec_enc_id == com_fec_enc_id
    then record x {
      es_len = bit_and word 0x0000FFFF;
      max_sb_len = read32 m x.hdrlen;
      hdrlen = x.hdrlen + 4;
      exthdrlen = x.exthdrlen - 1;
    }
    else if fec_enc_id == rs_fec_enc_id || fec_enc_id == sb_sys_fec_enc_id
    then record x {
      es_len = bit_and word 0x0000FFFF;
      max_sb_len = bit_and (read32 m x.hdrlen) 0xFFFF0000 >>> 16;
      max_nb_of_es = bit_and (read32 m x.hdrlen) 0x0000FFFF;
      hdrlen = x.hdrlen + 4;
      exthdrlen = x.exthdrlen - 1;
    }
    else x

-- `(word & 0x0000FFFF) << 16`: the source shifts the upper part of the length by 16 bits.
unfoldable pub read_fti : ℕ → ℕ → Buffer → Ext → Result Ext
unfolding read_fti_scheme read_fti_lengths
read_fti fec_enc_id word m x = do
  stop_if (not (x.hel == 4)) hdr_error
  let third = read32 m (x.hdrlen + 4)
  x' ← read_fti_scheme fec_enc_id third (record x {
    transfer_len = u64 ((bit_and word 0x0000FFFF <<< 16) + read32 m x.hdrlen);
    hdrlen = x.hdrlen + 8;
    exthdrlen = x.exthdrlen - 2;
  })
  ok (read_fti_lengths fec_enc_id third m x')

-- The body of the loop: one extension.
unfoldable pub read_extension : ℕ → Buffer → Ext → Result Ext
unfolding take_word pass_over read_fdt read_cenc read_fti
read_extension fec_enc_id m x₀ =
    let word = read32 m x₀.hdrlen in
    let het = het_of word in
    let x = take_word word x₀ in
    if het == ext_fdt
    then read_fdt word x
    else if het == ext_cenc
    then read_cenc word x
    else if het == ext_fti
    then read_fti fec_enc_id word m x
    else if het == ext_auth || het == ext_nop || het == ext_time
    then ok (pass_over x)
    else stop hdr_error

-- `while (exthdrlen > 0)`, on fuel.
unfoldable pub read_extensions : ℕ → ℕ → Buffer → Ext → Result Ext
read_extensions zero fec_enc_id m x = stop looping
read_extensions (suc fuel) fec_enc_id m x =
    let rest = read_extension fec_enc_id m x >>= read_extensions fuel fec_enc_id m in
    if ltb 0 x.exthdrlen then rest else ok x
