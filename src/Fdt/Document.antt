-- ===== src/Fdt/Document.antt =====
-- The document of the file delivery table: written by flutelib/fdt_gen.c, parsed as XML, and read by
-- flutelib/fdt.c.
use route.Base.{ℕ, ◌^◌, ◌<◌, ◌≡◌, ap, ◌∙◌, sym, Bool, false, Option, some, List, length, All}
use mathlib.Core.Path.{subst}
use route.Fdt.Elements.{Element}
use route.Fdt.Generate.{NamedFile, Session, generate_fdt, instance_element, encode_files}
use route.Fdt.Announce.{Fits, announced}
use route.Fdt.Delivery.{Sized, descriptions, headed-some, decode_printed}
use route.Fdt.Markup.{KeepsPlain, PlainElement, given_elements-plain, decode_given, decode_document}
use route.Fdt.Plain.{PlainNames, instance_element-Plain, encode_files-Plain}

-- The document that `generate_fdt` prints for files with plain names, where it prints one, gives
-- `decode_fdt_payload` the announced instance with the number of the files, and the files in their
-- order, with the TOIs from 1 on, if the XML parser gives values without markup as they stand; the
-- names have printable characters of ASCII but `&`, `"` and `<`, the fields of the session fit their
-- types, the sizes 64 bits and the number of files 32, and `errno` is not ERANGE before.
pub decode_document-generate_fdt :
    (xml : List ℕ → Option (List ℕ)) (s : Session) (complete_fdt : Bool) (user : Option (List ℕ))
    (fs : List NamedFile) (es : List Element)
    → KeepsPlain xml
    → Fits s
    → PlainNames fs
    → Sized fs
    → length fs < 2 ^ 32
    → generate_fdt s complete_fdt user fs ≡ some es
    → decode_document xml false es
      ≡ some (
        record (announced s complete_fdt) { nb_of_files = length fs },
        descriptions (announced s complete_fdt) 1 user fs,
      )
unfolding decode_document generate_fdt
decode_document-generate_fdt xml s complete_fdt user fs es k h p z l e =
    ap (λ o. decode_given false o) (given_elements-plain xml k es plain)
    ∙ decode_printed s complete_fdt user fs es h z l e
  where
    plain : All PlainElement es
    plain =
        let (rest, y, whole) =
          headed-some (instance_element s complete_fdt) (encode_files s 1 user fs) es e in
        subst (λ t. All PlainElement t) (sym whole)
          (instance_element-Plain s complete_fdt, encode_files-Plain s 1 user fs rest y p)
