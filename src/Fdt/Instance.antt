-- ===== src/Fdt/Instance.antt =====
-- The reading of an FDT instance: `startElement_FDT` and `decode_fdt_payload` of flutelib/fdt.c. The
-- XML parser is a library: what it calls the handler with, the elements in order with the names
-- and values of their attributes, is an argument. The static variables are a state that is passed
-- on; `prev` is the last file that is linked. Allocations succeed.
use route.Base.{
  ℕ, ◌-◌, ◌^◌, Bool, true, false, ◌&&◌, ◌||◌, not, Option, some, List, [], ◌∷◌, ltb, ◌==◌,
  if◌then◌else◌, u8, u16, u32, length,
}
use route.Text.{codes, equal}
use route.Numbers.{Converted, strtoull, atoi}
use route.Utf8.{utf8_to_iso, x_utf8s_to_iso_8859_1s}
use route.Fdt.{File}

-- `fdt_t` without its list of files.
pub record Instance : Type 0 where
  pub expires : ℕ
  pub complete : Bool
  pub nb_of_files : ℕ
  pub type : Option (List ℕ)
  pub encoding : Option (List ℕ)
  pub fec_enc_id : Option ℕ
  pub fec_inst_id : Option ℕ
  pub finite_field : ℕ
  pub nb_of_es_per_group : ℕ
  pub max_sb_len : ℕ
  pub es_len : ℕ
  pub max_nb_of_es : ℕ

-- The files that the instance has linked, without the current one; the current file, and whether
-- it is linked; and whether `errno` is ERANGE.
pub record Parser : Type 0 where
  pub instance_of : Instance
  pub files : List File
  pub file : Option File
  pub linked : Bool
  pub erange : Bool

-- The attributes that the comparisons tell apart.
pub data Oti : Type 0 where
  encoding_id instance_id block_length symbol_length max_symbols per_group field : Oti
  no_oti : Oti

pub data Kind : Type 0 where
  toi_kind location_kind content_kind transfer_kind type_kind encoding_kind md5_kind : Kind
  expires_kind complete_kind : Kind
  oti_kind : Oti → Kind

unfoldable pub oti_named : List ℕ → Oti
unfolding equal
oti_named name =
    if equal name (codes "FEC-OTI-FEC-Encoding-ID")
    then encoding_id
    else if equal name (codes "FEC-OTI-FEC-Instance-ID")
    then instance_id
    else if equal name (codes "FEC-OTI-Maximum-Source-Block-Length")
    then block_length
    else if equal name (codes "FEC-OTI-Encoding-Symbol-Length")
    then symbol_length
    else if equal name (codes "FEC-OTI-Max-Number-of-Encoding-Symbols")
    then max_symbols
    else if equal name (codes "FEC-OTI-Number-of-Encoding-Symbols-per-Group")
    then per_group
    else if equal name (codes "FEC-OTI-Finite-Field-Parameter")
    then field
    else no_oti

unfoldable pub file_kind : List ℕ → Kind
unfolding equal oti_named
file_kind name =
    if equal name (codes "TOI")
    then toi_kind
    else if equal name (codes "Content-Location")
    then location_kind
    else if equal name (codes "Content-Length")
    then content_kind
    else if equal name (codes "Transfer-Length")
    then transfer_kind
    else if equal name (codes "Content-Type")
    then type_kind
    else if equal name (codes "Content-Encoding")
    then encoding_kind
    else if equal name (codes "Content-MD5")
    then md5_kind
    else oti_kind (oti_named name)

unfoldable pub instance_kind : List ℕ → Kind
unfolding equal oti_named
instance_kind name =
    if equal name (codes "Expires")
    then expires_kind
    else if equal name (codes "Complete")
    then complete_kind
    else if equal name (codes "Content-Type")
    then type_kind
    else if equal name (codes "Content-Encoding")
    then encoding_kind
    else oti_kind (oti_named name)

-- The tests behind a conversion: an empty value passes the first, and `errno` may be older.
unfoldable pub refused : Converted → Bool → Bool
refused c erange = not c.ended || (erange || c.erange) && c.value == 2 ^ 64 - 1

-- What an attribute leaves: the file or the instance, `errno`, and whether the handler returns.
pub record Handled (A : Type 0) : Type 0 where
  pub result : A
  pub erange : Bool
  pub stop : Bool

abbrev pub assigned : {A : Type 0} → A → Bool → Handled A
assigned a erange = record { result = a; erange = erange; stop = false }

abbrev pub converted : {A : Type 0} → Converted → A → A → Bool → Handled A
converted c before after erange = record {
  result = if refused c erange then before else after;
  erange = erange || c.erange;
  stop = refused c erange;
}

-- A string ends at its first 0.
abbrev pub c_string : List ℕ → List ℕ
c_string [] = []
c_string (c ∷ cs) = if c == 0 then [] else c ∷ c_string cs

unfoldable pub location_of : List ℕ → List ℕ
unfolding utf8_to_iso
location_of value = c_string (x_utf8s_to_iso_8859_1s true value (length value)).1

abbrev pub file_oti : Oti → List ℕ → File → File
file_oti encoding_id value f = record f { fec_enc_id = some (u8 (atoi value)) }
file_oti instance_id value f = record f { fec_inst_id = some (u16 (atoi value)) }
file_oti block_length value f = record f { max_sb_len = u32 (atoi value) }
file_oti symbol_length value f = record f { es_len = u16 (atoi value) }
file_oti max_symbols value f = record f { max_nb_of_es = u16 (atoi value) }
file_oti per_group value f = record f { nb_of_es_per_group = u8 (atoi value) }
file_oti field value f = record f { finite_field = u8 (atoi value) }
file_oti no_oti value f = f

-- `Transfer-Length` has a bound of its own.
abbrev pub bounded : Handled File → Handled File
bounded h = record h { stop = h.stop || ltb 0xFFFFFFFFFFFF h.result.transfer_len }

unfoldable pub file_attribute : Kind → List ℕ → File → Bool → Handled File
unfolding strtoull refused location_of atoi
file_attribute toi_kind value f erange =
    let f' = record f { toi = (strtoull value).value } in converted (strtoull value) f' f' erange
file_attribute location_kind value f erange =
    assigned (record f { location = some (location_of value) }) erange
file_attribute content_kind value f erange =
    let n = (strtoull value).value in
    let f' = record f { content_len = n } in
    converted (strtoull value) f'
      (record f' { transfer_len = if f.transfer_len == 0 then n else f.transfer_len }) erange
file_attribute transfer_kind value f erange =
    let f' = record f { transfer_len = (strtoull value).value } in
    bounded (converted (strtoull value) f' f' erange)
file_attribute type_kind value f erange = assigned (record f { type = some value }) erange
file_attribute encoding_kind value f erange = assigned (record f { encoding = some value }) erange
file_attribute md5_kind value f erange = assigned (record f { md5 = some value }) erange
file_attribute expires_kind value f erange = assigned f erange
file_attribute complete_kind value f erange = assigned f erange
file_attribute (oti_kind o) value f erange = assigned (file_oti o value f) erange

abbrev pub instance_oti : Oti → List ℕ → Instance → Instance
instance_oti encoding_id value i = record i { fec_enc_id = some (u8 (atoi value)) }
instance_oti instance_id value i = record i { fec_inst_id = some (u16 (atoi value)) }
instance_oti block_length value i = record i { max_sb_len = u32 (atoi value) }
instance_oti symbol_length value i = record i { es_len = u16 (atoi value) }
instance_oti max_symbols value i = record i { max_nb_of_es = u16 (atoi value) }
instance_oti per_group value i = record i { nb_of_es_per_group = u8 (atoi value) }
instance_oti field value i = record i { finite_field = u8 (atoi value) }
instance_oti no_oti value i = i

unfoldable pub instance_attribute : Kind → List ℕ → Instance → Bool → Handled Instance
unfolding strtoull refused equal atoi
instance_attribute expires_kind value i erange =
    let i' = record i { expires = (strtoull value).value } in
    converted (strtoull value) i' i' erange
instance_attribute complete_kind value i erange =
    assigned (record i { complete = equal (codes "true") value }) erange
instance_attribute type_kind value i erange = assigned (record i { type = some value }) erange
instance_attribute encoding_kind value i erange =
    assigned (record i { encoding = some value }) erange
instance_attribute (oti_kind o) value i erange = assigned (instance_oti o value i) erange
instance_attribute _ value i erange = assigned i erange
