-- ===== src/Fdt/Announce.antt =====
-- The element `FDT-Instance`, written by `generate_fdt` and read by `startElement_FDT`.
use route.Base.{
  ℕ, ◌+◌, ◌-◌, ◌*◌, ◌/◌, ◌^◌, ◌<◌, ◌≡◌, refl, arith, ap, sym, ◌∙◌, Bool, true, false, ◌||◌, not,
  some, List, [], ◌∷◌, ◌++◌, ◌==◌, leb, if◌then◌else◌, u8, u16, u32,
}
use route.Text.{codes, equal}
use route.Numbers.{Converted, atoi, decimal}
use route.Numbers.Decimal.{strtoull-decimal, atoi-decimal}
use route.Blocking.{signed, negative, magnitude}
use route.Packet.Extension.{rs_fec_enc_id, sb_sys_fec_enc_id}
use route.Packet.Send.Compose.{gf_bits}
use route.Fdt.Instance.{Instance, Parser, converted, refused, instance_kind, instance_attribute}
use route.Fdt.Elements.{Attribute, instance_attributes, start_element, empty_instance}
use route.Fdt.Exchange.{idle}
use route.Fdt.Generate.{
  Session, when, max_n, instance_id_attribute, field_attributes, max_attribute, oti_attributes,
  instance_element,
}

read : List Attribute → Instance → Parser
read atts i = instance_attributes atts (idle i [])

block_read :
    (n : ℕ) (rest : List Attribute) (i : Instance)
    → n < 2 ^ 32
    → read ((codes "FEC-OTI-Maximum-Source-Block-Length", decimal n) ∷ rest) i
      ≡ read rest (record i { max_sb_len = n })
unfolding read instance_attributes instance_kind instance_attribute equal
block_read n rest i l =
    ap (λ k. read rest (record i { max_sb_len = u32 k })) (atoi-decimal n l)
    ∙ ap (λ k. read rest (record i { max_sb_len = k })) (omega arith)

symbol_read :
    (n : ℕ) (rest : List Attribute) (i : Instance)
    → n < 2 ^ 16
    → read ((codes "FEC-OTI-Encoding-Symbol-Length", decimal n) ∷ rest) i
      ≡ read rest (record i { es_len = n })
unfolding read instance_attributes instance_kind instance_attribute equal
symbol_read n rest i l =
    ap (λ k. read rest (record i { es_len = u16 k })) (atoi-decimal n (omega arith))
    ∙ ap (λ k. read rest (record i { es_len = k })) (omega arith)

id_read :
    (n : ℕ) (rest : List Attribute) (i : Instance)
    → n < 2 ^ 8
    → read ((codes "FEC-OTI-FEC-Encoding-ID", decimal n) ∷ rest) i
      ≡ read rest (record i { fec_enc_id = some n })
unfolding read instance_attributes instance_kind instance_attribute equal
id_read n rest i l =
    ap (λ k. read rest (record i { fec_enc_id = some (u8 k) })) (atoi-decimal n (omega arith))
    ∙ ap (λ k. read rest (record i { fec_enc_id = some k })) (omega arith)

instance_read :
    (b : Bool) (s : Session) (rest : List Attribute) (i : Instance)
    → s.def_fec_inst_id < 2 ^ 16
    → read (when b (instance_id_attribute s) ++ rest) i
      ≡ read rest (record i { fec_inst_id = if b then some s.def_fec_inst_id else i.fec_inst_id })
unfolding read instance_attributes instance_kind instance_attribute equal
instance_read false s rest i l = refl
instance_read true s rest i l =
    let n = s.def_fec_inst_id in
    ap (λ k. read rest (record i { fec_inst_id = some (u16 k) })) (atoi-decimal n (omega arith))
    ∙ ap (λ k. read rest (record i { fec_inst_id = some k })) (omega arith)

-- The two attributes of the Reed-Solomon scheme repeat what the instance begins with.
field_read :
    (b : Bool) (rest : List Attribute) (i : Instance)
    → i.finite_field ≡ gf_bits
    → i.nb_of_es_per_group ≡ 1
    → read (when b field_attributes ++ rest) i ≡ read rest i
unfolding read instance_attributes instance_kind instance_attribute equal atoi decimal
field_read false rest i e e' = refl
field_read true rest i e e' =
    ap (λ k. read rest (record i { finite_field = k; nb_of_es_per_group = 1 })) (sym e)
    ∙ ap (λ k. read rest (record i { nb_of_es_per_group = k })) (sym e')

max_read :
    (b : Bool) (s : Session) (i : Instance)
    → max_n s < 2 ^ 32
    → read (when b (max_attribute s)) i
      ≡ read [] (record i { max_nb_of_es = if b then u16 (max_n s) else i.max_nb_of_es })
unfolding read instance_attributes instance_kind instance_attribute equal
max_read false s i l = refl
max_read true s i l =
    ap (λ k. read [] (record i { max_nb_of_es = u16 k })) (atoi-decimal (max_n s) l)

-- What `generate_fdt` fits into the fields of the session.
pub record Fits (s : Session) : Type 0 where
  pub id : s.def_fec_enc_id < 2 ^ 8
  pub inst_id : s.def_fec_inst_id < 2 ^ 16
  pub max_sblen : s.def_max_sblen < 2 ^ 32
  pub eslen : s.def_eslen < 2 ^ 16
  pub stop : s.stoptime < 2 ^ 64

unfoldable pub with_oti : Session → Instance → Instance
with_oti s i =
    let id = s.def_fec_enc_id in
    record i {
      fec_enc_id = some id;
      fec_inst_id = if leb 128 id then some s.def_fec_inst_id else i.fec_inst_id;
      max_sb_len = s.def_max_sblen;
      es_len = s.def_eslen;
      max_nb_of_es =
          if id == rs_fec_enc_id || id == sb_sys_fec_enc_id then u16 (max_n s) else i.max_nb_of_es;
    }

signed_div-small : (p : ℕ) → p < 2 ^ 32 → signed 32 (negative 32 p) (magnitude 32 p / 100) < 2 ^ 32
signed_div-small p l = ground arith

max_n-small : (s : Session) → max_n s < 2 ^ 32
max_n-small s = signed_div-small (u32 (s.def_max_sblen * (100 + s.def_fec_ratio))) (omega arith)

oti_read :
    (s : Session) (i : Instance)
    → Fits s
    → i.finite_field ≡ gf_bits
    → i.nb_of_es_per_group ≡ 1
    → read (oti_attributes s) i ≡ read [] (with_oti s i)
unfolding oti_attributes with_oti
oti_read s i h e e' =
    let id = s.def_fec_enc_id in
    let last = when (id == rs_fec_enc_id || id == sb_sys_fec_enc_id) (max_attribute s) in
    let lengths : List Attribute =
      (codes "FEC-OTI-Maximum-Source-Block-Length", decimal s.def_max_sblen)
      ∷ (codes "FEC-OTI-Encoding-Symbol-Length", decimal s.def_eslen)
      ∷ last in
    let i₁ = record i { fec_enc_id = some id } in
    let i₂ = record i₁ {
      fec_inst_id = if leb 128 id then some s.def_fec_inst_id else i.fec_inst_id;
    } in
    let i₃ = record i₂ { max_sb_len = s.def_max_sblen } in
    id_read id _ i h.id
    ∙ instance_read (leb 128 id) s _ i₁ h.inst_id
    ∙ field_read (id == rs_fec_enc_id) lengths i₂ e e'
    ∙ block_read s.def_max_sblen _ i₂ h.max_sblen
    ∙ symbol_read s.def_eslen last i₃ h.eslen
    ∙ max_read (id == rs_fec_enc_id || id == sb_sys_fec_enc_id) s
        (record i₃ { es_len = s.def_eslen }) (max_n-small s)

complete_read :
    (b : Bool) (rest : List Attribute) (i : Instance)
    → i.complete ≡ false
    → read (when b ((codes "Complete", codes "true") ∷ []) ++ rest) i
      ≡ read rest (record i { complete = b })
unfolding read instance_attributes instance_kind instance_attribute equal
complete_read false rest i e = ap (λ b. read rest (record i { complete = b })) e
complete_read true rest i e = refl

expires_read :
    (n : ℕ) (rest : List Attribute) (i : Instance)
    → n < 2 ^ 64
    → read ((codes "Expires", decimal n) ∷ rest) i ≡ read rest (record i { expires = n })
unfolding read instance_attributes instance_kind instance_attribute equal refused
expires_read n rest i l =
    ap
      (λ (c : Converted).
        let h =
          converted c (record i { expires = c.value }) (record i { expires = c.value }) false in
        let p = record (idle i []) { instance_of = h.result; erange = h.erange } in
        if h.stop then p else instance_attributes rest p)
      (strtoull-decimal n l)

abbrev pub stop_of : Session → ℕ
stop_of s = if s.stoptime == 0 then 2 ^ 64 - 1 else s.stoptime

-- The instance that a session announces.
unfoldable pub announced : Session → Bool → Instance
unfolding with_oti
announced s complete_fdt =
    let i = record empty_instance { expires = stop_of s; complete = complete_fdt } in
    if s.use_fec_oti_ext_hdr then i else with_oti s i

end_read :
    (b : Bool) (s : Session) (i : Instance)
    → Fits s
    → i.finite_field ≡ gf_bits
    → i.nb_of_es_per_group ≡ 1
    → read (when (not b) (oti_attributes s)) i ≡ read [] (if b then i else with_oti s i)
end_read true s i h e e' = refl
end_read false s i h e e' = oti_read s i h e e'

pub start_element-instance_element :
    (s : Session) (complete_fdt : Bool)
    → Fits s
    → start_element (instance_element s complete_fdt) (idle empty_instance [])
      ≡ some (idle (announced s complete_fdt) [])
unfolding start_element instance_element equal announced read instance_attributes
start_element-instance_element s complete_fdt h =
    let i = record empty_instance { expires = stop_of s } in
    let rest : List Attribute =
      when complete_fdt ((codes "Complete", codes "true") ∷ [])
      ++ when (not s.use_fec_oti_ext_hdr) (oti_attributes s) in
    ap some (
      expires_read (stop_of s) rest empty_instance (ground (arith, h.stop))
      ∙ complete_read complete_fdt (when (not s.use_fec_oti_ext_hdr) (oti_attributes s)) i refl
      ∙ end_read s.use_fec_oti_ext_hdr s (record i { complete = complete_fdt }) h refl refl)
