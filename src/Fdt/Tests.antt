-- ===== src/Fdt/Tests.antt =====
-- The file delivery table with one file, to which a description of it and one of another come.
use route.Base.{
  ℕ, ap, All, Option, ◌||◌, ◌==◌, if◌then◌else◌, ◌++◌, arith, none, List, true, false, ◌≡◌, refl,
  some, [], ◌∷◌,
}
use route.Text.{codes}
use route.Fdt.Elements.{Element, empty_instance, start_element}
use route.Fdt.Generate.{
  NamedFile, Session, slashes, file_element, instance_element, encode_file, unterminated,
  generate_fdt,
}
use route.Fdt.Exchange.{idle, one_more}
use route.Fdt.Announce.{announced}
use route.Fdt.Delivery.{descriptions}
use route.Fdt.Markup.{IsPlain, KeepsPlain, prepend, decode_document, given_element}
use route.Fdt.Document.{decode_document-generate_fdt}
use route.Fdt.Names.{file_name, file_name-described}
use route.Fdt.{File, Fdt, Walk, new_file, update_fdt}
use route.Fdt.Completed.{table_of}
use route.Fdt.Merge.{IsTable, Refines, update_fdt-Refines}

abbrev known : File
known = record new_file { toi = 3; expires = 100 }

abbrev longer : File
longer = record new_file { toi = 3; expires = 200; transfer_len = 5000; fec_enc_id = some 0 }

abbrev other : File
other = record new_file { toi = 4; location = some (97 ∷ []) }

abbrev fdt : Fdt
fdt = record { file_list = known ∷ []; nb_of_files = 1 }

fdt-IsTable : IsTable (known ∷ []) 1
fdt-IsTable = record { first = known; others = []; cells = refl; counted = refl }

update_fdt-Refines_example :
    (w : Walk) × (update_fdt fdt (longer ∷ other ∷ []) ≡ some w)
    × Refines (longer ∷ other ∷ []) (table_of (known ∷ [])) 0 w
update_fdt-Refines_example = update_fdt-Refines fdt (longer ∷ other ∷ []) fdt-IsTable

abbrev name : List ℕ
name = codes "a\\b"

abbrev session : Session
session = record {
  stoptime = 0;
  def_fec_enc_id = 129;
  def_fec_inst_id = 0;
  def_max_sblen = 64;
  def_eslen = 1400;
  def_fec_ratio = 50;
  use_fec_oti_ext_hdr = false;
  encode_content = 1;
}

abbrev two_files : List NamedFile
two_files = (name, some 5000) ∷ (codes "c", some 70) ∷ []

abbrev elements : List Element
elements =
    instance_element session true
    ∷ file_element 1 name none 5000
    ∷ file_element 2 (codes "c") none 70
    ∷ []

two_generated : generate_fdt session true none two_files ≡ some elements
unfolding generate_fdt
two_generated = refl

-- A parser that takes no markup.
abbrev strict : List ℕ → Option (List ℕ)
strict [] = some []
strict (c ∷ cs) =
    let rest = strict cs in
    if c == b'&' || c == b'"' || c == b'<' then none else prepend (some c) rest

strict-KeepsPlain : KeepsPlain strict
strict-KeepsPlain [] p = refl
strict-KeepsPlain (c ∷ cs) p =
    rw (no_markup c p.0) (ap (λ o. prepend (some c) o) (strict-KeepsPlain cs p.1))
  where
    no_markup : (c : ℕ) → IsPlain c → (c == b'&' || c == b'"' || c == b'<') ≡ false
    no_markup c p = ground arith

-- A name with markup makes no document.
markup_refused : decode_document strict false (file_element 1 (codes "a&b") none 5 ∷ []) ≡ none
unfolding decode_document file_element
markup_refused = refl

name-Plain : All IsPlain name
name-Plain = ground arith

c-Plain : All IsPlain (codes "c")
c-Plain = ground arith

decode_document-generate_fdt_example :
    decode_document strict false elements
    ≡ some (
      record (announced session true) { nb_of_files = 2 },
      descriptions (announced session true) 1 none two_files,
    )
decode_document-generate_fdt_example =
    decode_document-generate_fdt strict session true none two_files elements strict-KeepsPlain
      (record {
        id = omega arith;
        inst_id = omega arith;
        max_sblen = omega arith;
        eslen = omega arith;
        stop = omega arith;
      })
      (name-Plain, (c-Plain, tt)) (omega arith, (omega arith, tt)) (omega arith) two_generated

-- With an encoding of the files the element is not ended.
pads : encode_file (record session { encode_content = 3 }) 1 none name (some 5000) ≡ unterminated
unfolding encode_file
pads = refl

file_name-described_example :
    (e : Element) × (given_element strict (file_element 1 name none 5000) ≡ some e)
    × ((f : File) × (start_element e (idle empty_instance [])
          ≡ some (idle (one_more empty_instance) ([] ++ f ∷ [])))
        × (file_name f ≡ some (slashes name)))
file_name-described_example =
    file_name-described strict empty_instance [] 1 name none 5000 strict-KeepsPlain name-Plain
      ((λ e. omega arith), ((λ e. omega arith), ((λ e. omega arith), tt))) (omega arith)
      (omega arith)
