-- ===== src/Fdt/Exchange.antt =====
-- What `generate_fdt` of flutelib/fdt_gen.c writes, as `decode_fdt_payload` of flutelib/fdt.c reads it.
use route.Base.{
  ℕ, ◌+◌, ◌^◌, ◌<◌, ◌≡◌, refl, ap, ◌∙◌, true, false, Option, none, some, List, [], ◌∷◌, ◌++◌, ◌==◌,
  if◌then◌else◌, u32,
}
use route.Text.{codes, equal}
use route.Numbers.{Converted, decimal}
use route.Numbers.Decimal.{strtoull-decimal}
use route.Uri.{uri_string}
use route.Fdt.{File}
use route.Fdt.Instance.{
  Instance, Parser, toi_kind, content_kind, converted, location_of, file_kind, file_attribute,
}
use route.Fdt.Elements.{
  Attribute, file_of, next, after, attribute, common_parameters, follow, file_attributes,
  start_element,
}
use route.Fdt.Generate.{uri_of, printed, file_element}

-- Between two elements.
abbrev pub idle : Instance → List File → Parser
idle i files = record {
  instance_of = i;
  files = files;
  file = none;
  linked = false;
  erange = false;
}

abbrev pub location_text : List ℕ → Option (List ℕ) → List ℕ
location_text file user = printed (uri_string (uri_of file user))

-- What the receiver makes of the element of a file.
abbrev pub described : Instance → ℕ → List ℕ → Option (List ℕ) → ℕ → File
described i toi file user size = record (file_of i) {
  toi = toi;
  location = some (location_of (location_text file user));
  content_len = size;
  transfer_len = size;
  type = i.type;
  encoding = i.encoding;
}

pub toi_read :
    (f : File) (toi : ℕ)
    → toi < 2 ^ 64
    → file_attribute toi_kind (decimal toi) f false
      ≡ record { result = record f { toi = toi }; erange = false; stop = false }
unfolding file_attribute
toi_read f toi l =
    ap
      (λ (c : Converted).
        converted c (record f { toi = c.value }) (record f { toi = c.value }) false)
      (strtoull-decimal toi l)

content_read :
    (f : File) (size : ℕ)
    → f.transfer_len ≡ 0
    → size < 2 ^ 64
    → file_attribute content_kind (decimal size) f false ≡ record {
      result = record f { content_len = size; transfer_len = size };
      erange = false;
      stop = false;
    }
unfolding file_attribute
content_read f size e l =
    ap
      (λ (c : Converted).
        converted c (record f { content_len = c.value })
          (record f {
            content_len = c.value;
            transfer_len = if f.transfer_len == 0 then c.value else f.transfer_len;
          })
          false)
      (strtoull-decimal size l)
    ∙ rw e refl

-- Within an element, behind its TOI.
abbrev pub going : Instance → List File → File → Parser
going i files f = record {
  instance_of = i;
  files = files;
  file = some f;
  linked = true;
  erange = false;
}

abbrev pub one_more : Instance → Instance
one_more i = record i { nb_of_files = u32 (i.nb_of_files + 1) }

pub toi_attribute :
    (i : Instance) (files : List File) (toi : ℕ)
    → toi < 2 ^ 64
    → attribute (codes "TOI", decimal toi) (idle i files)
      ≡ next (going (one_more i) files (record (file_of i) { toi = toi }))
unfolding attribute file_kind
toi_attribute i files toi l =
    ap (λ h. after toi_kind h (record (idle (one_more i) files) { linked = false }))
      (toi_read (file_of i) toi l)

location_attribute :
    (i : Instance) (files : List File) (f : File) (value : List ℕ)
    → attribute (codes "Content-Location", value) (going i files f)
      ≡ next (going i files (record f { location = some (location_of value) }))
unfolding attribute file_kind file_attribute
location_attribute i files f value = refl

content_attribute :
    (i : Instance) (files : List File) (f : File) (size : ℕ)
    → f.transfer_len ≡ 0
    → size < 2 ^ 64
    → attribute (codes "Content-Length", decimal size) (going i files f)
      ≡ next (going i files (record f { content_len = size; transfer_len = size }))
unfolding attribute file_kind
content_attribute i files f size e l =
    ap (λ h. after content_kind h (going i files f)) (content_read f size e l)

-- One attribute, and the rest.
pub step :
    (a : Attribute) (rest : List Attribute) (p q : Parser)
    → attribute a p ≡ next q
    → file_attributes (a ∷ rest) p ≡ file_attributes rest (common_parameters rest q)
unfolding file_attributes
step a rest p q e = ap (λ o. follow o (λ q. file_attributes rest (common_parameters rest q))) e

-- The element of a file is read as its description, and counted.
pub element_read :
    (i : Instance) (files : List File) (toi : ℕ) (file : List ℕ) (user : Option (List ℕ)) (size : ℕ)
    → toi < 2 ^ 64
    → size < 2 ^ 64
    → start_element (file_element toi file user size) (idle i files)
      ≡ some (idle (one_more i) (files ++ described i toi file user size ∷ []))
unfolding start_element file_element file_attributes equal
element_read i files toi file user size l m =
    let f = record (file_of i) { toi = toi } in
    let text = location_text file user in
    let rest = (codes "Content-Length", decimal size) ∷ [] in
    step (codes "TOI", decimal toi) ((codes "Content-Location", text) ∷ rest) (idle i files)
      (going (one_more i) files f) (toi_attribute i files toi l)
    ∙ step (codes "Content-Location", text) rest (going (one_more i) files f)
        (going (one_more i) files (record f { location = some (location_of text) }))
        (location_attribute (one_more i) files f text)
    ∙ step (codes "Content-Length", decimal size) []
        (going (one_more i) files (record f { location = some (location_of text) }))
        (going (one_more i) files (record f {
          location = some (location_of text);
          content_len = size;
          transfer_len = size;
        }))
        (content_attribute (one_more i) files (record f { location = some (location_of text) }) size
          refl m)
