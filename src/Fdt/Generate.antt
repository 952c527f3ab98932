-- ===== src/Fdt/Generate.antt =====
-- The writing of an FDT instance: `encode_file` and `generate_fdt` of flutelib/fdt_gen.c, as the
-- elements with the attributes that they print, in the configuration of alclib/defines.h and
-- flutelib/flute_defines.h: with zlib, without OpenSSL and without the host name, and with the
-- parameters of the erasure code in the instance. The files and their sizes are arguments. A value
-- is what is printed between the quotation marks, without escapes.
use route.Base.{
  ℕ, ◌+◌, ◌-◌, ◌*◌, ◌/◌, ◌^◌, Bool, true, false, ◌||◌, not, Option, none, some, List, [], ◌∷◌, ◌++◌,
  leb, u32, u64, ◌==◌, if◌then◌else◌, map,
}
use route.Text.{codes}
use route.Numbers.{decimal}
use route.Uri.{Uri, alloc_uri_struct, uri_string, file_scheme}
use route.Blocking.{
  Computed, null, fault, ok, compute_blocking_structure, magnitude, negative, signed,
}
use route.Packet.Extension.{com_no_c_fec_enc_id, com_fec_enc_id, rs_fec_enc_id, sb_sys_fec_enc_id}
use route.Packet.Send.Compose.{gf_bits}
use route.Fdt.Elements.{Attribute, Element}

-- What the functions read of the session.
pub record Session : Type 0 where
  pub stoptime : ℕ
  pub def_fec_enc_id : ℕ
  pub def_fec_inst_id : ℕ
  pub def_max_sblen : ℕ
  pub def_eslen : ℕ
  pub def_fec_ratio : ℕ
  pub use_fec_oti_ext_hdr : Bool
  pub encode_content : ℕ

-- `\` becomes `/`.
abbrev pub slashes : List ℕ → List ℕ
slashes name = map (λ c. if c == b'\\' then b'/' else c) name

abbrev pub uri_of : List ℕ → Option (List ℕ) → Uri
uri_of file user = record alloc_uri_struct {
  scheme = some file_scheme;
  user = user;
  path = some (slashes file);
}

abbrev pub printed : Option (List ℕ) → List ℕ
printed none = []
printed (some text) = text

unfoldable pub file_element : ℕ → List ℕ → Option (List ℕ) → ℕ → Element
unfolding decimal uri_string
file_element toi file user size = (
  codes "File",
  (codes "TOI", decimal toi)
      ∷ (codes "Content-Location", printed (uri_string (uri_of file user)))
      ∷ (codes "Content-Length", decimal size)
      ∷ [],
)

-- The quotient of `div`, which takes the product, on 32 bits, for a signed number.
abbrev pub max_n : Session → ℕ
max_n s =
    let p = u32 (s.def_max_sblen * (100 + s.def_fec_ratio)) in
    signed 32 (negative 32 p) (magnitude 32 p / 100)

abbrev pub when : Bool → List Attribute → List Attribute
when true atts = atts
when false atts = []

abbrev pub instance_id_attribute : Session → List Attribute
instance_id_attribute s = (codes "FEC-OTI-FEC-Instance-ID", decimal s.def_fec_inst_id) ∷ []

abbrev pub field_attributes : List Attribute
field_attributes =
    (codes "FEC-OTI-Finite-Field-Parameter", decimal gf_bits)
    ∷ (codes "FEC-OTI-Number-of-Encoding-Symbols-per-Group", decimal 1)
    ∷ []

abbrev pub max_attribute : Session → List Attribute
max_attribute s = (codes "FEC-OTI-Max-Number-of-Encoding-Symbols", decimal (max_n s)) ∷ []

unfoldable pub oti_attributes : Session → List Attribute
unfolding decimal
oti_attributes s =
    let id = s.def_fec_enc_id in
    (codes "FEC-OTI-FEC-Encoding-ID", decimal id)
    ∷ (when (leb 128 id) (instance_id_attribute s)
        ++ (when (id == rs_fec_enc_id) field_attributes
            ++ (codes "FEC-OTI-Maximum-Source-Block-Length", decimal s.def_max_sblen)
              ∷ (codes "FEC-OTI-Encoding-Symbol-Length", decimal s.def_eslen)
              ∷ when (id == rs_fec_enc_id || id == sb_sys_fec_enc_id) (max_attribute s)))

abbrev pub zlib_fdt : ℕ
zlib_fdt = 1

-- A session without an end has the largest number.
unfoldable pub instance_element : Session → Bool → Element
unfolding decimal oti_attributes
instance_element s complete_fdt = (
  codes "FDT-Instance",
  (codes "Expires", decimal (if s.stoptime == 0 then 2 ^ 64 - 1 else s.stoptime))
      ∷ (when complete_fdt ((codes "Complete", codes "true") ∷ [])
          ++ when (not s.use_fec_oti_ext_hdr) (oti_attributes s)),
)

-- The number of source blocks that a scheme can name.
abbrev pub most_blocks : ℕ → ℕ
most_blocks fec_enc_id =
    if fec_enc_id == com_no_c_fec_enc_id || fec_enc_id == com_fec_enc_id
    then 65536
    else if fec_enc_id == rs_fec_enc_id
    then 16777216
    else 4294967295

-- `none` where `compute_blocking_structure` divides by 0.
abbrev pub enough : ℕ → Computed → Option Bool
enough fec_enc_id null = none
enough fec_enc_id fault = none
enough fec_enc_id (ok bs) = some (leb bs.n (most_blocks fec_enc_id))

unfoldable pub is_enough_source_block_numbers : Session → ℕ → Option Bool
unfolding compute_blocking_structure
is_enough_source_block_numbers s f_size =
    enough s.def_fec_enc_id (compute_blocking_structure true f_size s.def_max_sblen s.def_eslen)

-- The element, the result -1, an element that is not ended, or a division by 0.
pub data Encoded : Type 0 where
  element : Element → Encoded
  failure unterminated undefined : Encoded

abbrev pub if_enough : Element → Option Bool → Encoded
if_enough e none = undefined
if_enough e (some false) = failure
if_enough e (some true) = element e

-- Of the sizes, `none` is a file that there is not. Only without an encoding of the files is the
-- element ended.
unfoldable pub encode_file : Session → ℕ → Option (List ℕ) → List ℕ → Option ℕ → Encoded
unfolding file_element is_enough_source_block_numbers
encode_file s toi user file none = failure
encode_file s toi user file (some size) =
    if size == 0
    then failure
    else if s.encode_content == 0
    then if_enough (file_element toi file user size) (is_enough_source_block_numbers s size)
    else if s.encode_content == zlib_fdt
    then element (file_element toi file user size)
    else unterminated

abbrev pub NamedFile : Type 0
NamedFile = List ℕ × Option ℕ

-- The elements of the whole instance; `none` where there is none to parse.
abbrev pub with_element : Encoded → Option (List Element) → Option (List Element)
with_element (element e) (some es) = some (e ∷ es)
with_element _ _ = none

unfoldable pub encode_files : Session → ℕ → Option (List ℕ) → List NamedFile → Option (List Element)
unfolding encode_file
encode_files s toi user [] = some []
encode_files s toi user ((file, size) ∷ files) =
    with_element (encode_file s toi user file size) (encode_files s (u64 (toi + 1)) user files)

abbrev pub headed : Element → Option (List Element) → Option (List Element)
headed e none = none
headed e (some es) = some (e ∷ es)

-- Regular files, of which the first has the TOI 1.
unfoldable pub generate_fdt :
    Session → Bool → Option (List ℕ) → List NamedFile → Option (List Element)
unfolding instance_element encode_files
generate_fdt s complete_fdt user files =
    headed (instance_element s complete_fdt) (encode_files s 1 user files)
