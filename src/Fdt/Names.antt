-- ===== src/Fdt/Names.antt =====
-- The name of a file, from `encode_file` of flutelib/fdt_gen.c through the FDT and the URI to the
-- receiver in flutelib/receiver.c.
use route.Base.{ℕ, ◌^◌, ◌<◌, ◌++◌, ◌≡◌, arith, ap, ◌∙◌, Option, none, some, List, [], ◌∷◌, All}
use route.Text.{Without}
use route.Uri.{parse_uri, get_uri_host_and_path, Uri}
use route.Uri.RoundTrip.{behind_scheme, parse_uri-local}
use route.Fdt.{File}
use route.Fdt.Instance.{Instance, location_of}
use route.Fdt.Generate.{slashes, file_element}
use route.Fdt.Elements.{Element, start_element}
use route.Fdt.Markup.{IsPlain, KeepsPlain, given_element, given_element-plain}
use route.Fdt.Plain.{location_printed, file_element-Plain}
use route.Fdt.Exchange.{described, idle, one_more, element_read}
use route.Fdt.Location.{IsAscii, location_of-ascii}

-- What the receiver takes for the name of a file that has a location.
abbrev pub named : Option Uri → Option (List ℕ)
named none = none
named (some uri) = get_uri_host_and_path uri

abbrev pub name_at : Option (List ℕ) → Option (List ℕ)
name_at none = none
name_at (some location) = named (parse_uri location)

unfoldable pub file_name : File → Option (List ℕ)
file_name file = name_at file.location

slashes-IsAscii : (file : List ℕ) → All IsAscii file → All IsAscii (slashes file)
slashes-IsAscii [] a = tt
slashes-IsAscii (c ∷ cs) a = (ground arith, slashes-IsAscii cs a.1)

slashes-Without : (file : List ℕ) → Without b'#' file → Without b'#' (slashes file)
slashes-Without [] a = tt
slashes-Without (c ∷ cs) a = (ground arith, slashes-Without cs a.1)

file_name-ascii :
    (i : Instance) (toi : ℕ) (file : List ℕ) (user : Option (List ℕ)) (size : ℕ)
    → All IsAscii file
    → Without b'#' file
    → file_name (described i toi file user size) ≡ some (slashes file)
unfolding file_name get_uri_host_and_path
file_name-ascii i toi file user size a w =
    let text = behind_scheme (b'/' ∷ slashes file) in
    ap (λ t. named (parse_uri (location_of t))) (location_printed file user)
    ∙ ap (λ t. named (parse_uri t))
        (location_of-ascii text (ground (arith, slashes-IsAscii file a)))
    ∙ ap named (parse_uri-local (slashes file) (slashes-Without file w))

plain-IsAscii : (file : List ℕ) → All IsPlain file → All IsAscii file
plain-IsAscii [] p = tt
plain-IsAscii (c ∷ cs) p = (ground (arith, p.0), plain-IsAscii cs p.1)

-- The element that the sender prints for a file with a plain name is given to the handler of the
-- receiver, which adds one file to its list: its name is that of the sender, with `/` for each `\`,
-- if the name has no `#`; the XML parser gives values without markup as they stand, the name has
-- printable characters of ASCII but `&`, `"` and `<`, and the TOI and the size fit 64 bits.
pub file_name-described :
    (xml : List ℕ → Option (List ℕ)) (i : Instance) (files : List File) (toi : ℕ) (file : List ℕ)
    (user : Option (List ℕ)) (size : ℕ)
    → KeepsPlain xml
    → All IsPlain file
    → Without b'#' file
    → toi < 2 ^ 64
    → size < 2 ^ 64
    → (e : Element) × (given_element xml (file_element toi file user size) ≡ some e)
      × ((f : File) × (start_element e (idle i files) ≡ some (idle (one_more i) (files ++ f ∷ [])))
          × (file_name f ≡ some (slashes file)))
file_name-described xml i files toi file user size k p w l m = (
  file_element toi file user size,
  given_element-plain xml k (file_element toi file user size)
      (file_element-Plain toi file user size p),
  (
    described i toi file user size,
    element_read i files toi file user size l m,
    file_name-ascii i toi file user size (plain-IsAscii file p) w,
  ),
)
