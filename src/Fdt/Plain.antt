-- ===== src/Fdt/Plain.antt =====
-- What flutelib/fdt_gen.c prints for plain names is plain text.
use route.Base.{
  ℕ, ◌+◌, ◌-◌, ◌^◌, ◌≡◌, refl, arith, sym, Bool, true, false, ◌||◌, not, Option, none, some, List,
  [], ◌∷◌, ◌++◌, All, leb, ◌==◌, if◌then◌else◌, u64,
}
use mathlib.Core.Path.{subst}
use route.Text.{codes, equal}
use route.Numbers.{decimal}
use route.Packet.Extension.{rs_fec_enc_id, sb_sys_fec_enc_id}
use route.Packet.Send.Compose.{gf_bits}
use route.Uri.{uri_string}
use route.Uri.RoundTrip.{behind_scheme}
use route.Fdt.Elements.{Attribute, Element}
use route.Fdt.Generate.{
  Session, NamedFile, slashes, file_element, max_n, when, instance_id_attribute, field_attributes,
  max_attribute, oti_attributes, instance_element, encode_file, encode_files,
}
use route.Fdt.Exchange.{location_text}
use route.Fdt.Delivery.{encoded-some, encode_file-element}
use route.Fdt.Markup.{IsPlain, PlainAttributes, PlainElement, decimal-Plain}

pub location_printed :
    (file : List ℕ) (user : Option (List ℕ))
    → location_text file user ≡ behind_scheme (b'/' ∷ slashes file)
unfolding uri_string equal
location_printed file user = refl

slashes-Plain : (file : List ℕ) → All IsPlain file → All IsPlain (slashes file)
slashes-Plain [] a = tt
slashes-Plain (c ∷ cs) a = (ground (arith, a.0), slashes-Plain cs a.1)

pub location-Plain :
    (file : List ℕ) (user : Option (List ℕ))
    → All IsPlain file
    → All IsPlain (location_text file user)
location-Plain file user a =
    subst (λ t. All IsPlain t) (sym (location_printed file user))
      (ground (arith, slashes-Plain file a))

pub file_element-Plain :
    (toi : ℕ) (file : List ℕ) (user : Option (List ℕ)) (size : ℕ)
    → All IsPlain file
    → PlainElement (file_element toi file user size)
unfolding file_element
file_element-Plain toi file user size a =
    (decimal-Plain toi, (location-Plain file user a, (decimal-Plain size, tt)))

when-Plain :
    (b : Bool) (atts : List Attribute) → PlainAttributes atts → PlainAttributes (when b atts)
when-Plain true atts p = p
when-Plain false atts p = tt

append-Plain :
    (xs ys : List Attribute) → PlainAttributes xs → PlainAttributes ys → PlainAttributes (xs ++ ys)
append-Plain [] ys p q = q
append-Plain (x ∷ xs) ys p q = (p.0, append-Plain xs ys p.1 q)

oti_attributes-Plain : (s : Session) → PlainAttributes (oti_attributes s)
unfolding oti_attributes
oti_attributes-Plain s =
    let id = s.def_fec_enc_id in
    let lengths : List Attribute =
      (codes "FEC-OTI-Maximum-Source-Block-Length", decimal s.def_max_sblen)
      ∷ (codes "FEC-OTI-Encoding-Symbol-Length", decimal s.def_eslen)
      ∷ when (id == rs_fec_enc_id || id == sb_sys_fec_enc_id) (max_attribute s) in
    (
      decimal-Plain id,
      append-Plain (when (leb 128 id) (instance_id_attribute s))
          (when (id == rs_fec_enc_id) field_attributes ++ lengths)
          (when-Plain _ (instance_id_attribute s) (decimal-Plain s.def_fec_inst_id, tt))
          (append-Plain (when (id == rs_fec_enc_id) field_attributes) lengths
            (when-Plain _ field_attributes (decimal-Plain gf_bits, (decimal-Plain 1, tt)))
            (
              decimal-Plain s.def_max_sblen,
              (
                decimal-Plain s.def_eslen,
                when-Plain _ (max_attribute s) (decimal-Plain (max_n s), tt),
              ),
            )),
    )

pub instance_element-Plain :
    (s : Session) (complete : Bool) → PlainElement (instance_element s complete)
unfolding instance_element
instance_element-Plain s complete = (
  decimal-Plain (if s.stoptime == 0 then 2 ^ 64 - 1 else s.stoptime),
  append-Plain _ _ (when-Plain complete _ (true_text, tt))
      (when-Plain (not s.use_fec_oti_ext_hdr) _ (oti_attributes-Plain s)),
)
  where
    true_text : All IsPlain (codes "true")
    true_text = ground arith

-- The names are plain.
abbrev pub PlainNames : List NamedFile → Type 0
PlainNames = All (λ f. All IsPlain f.0)

pub encode_files-Plain :
    (s : Session) (toi : ℕ) (user : Option (List ℕ)) (fs : List NamedFile) (es : List Element)
    → encode_files s toi user fs ≡ some es
    → PlainNames fs
    → All PlainElement es
unfolding encode_files
encode_files-Plain s toi user fs [] e p = tt
encode_files-Plain s toi user [] (x ∷ es) e p = absurd (cc)
encode_files-Plain s toi user ((file, none) ∷ fs) (x ∷ es) e p = absurd (cc)
encode_files-Plain s toi user ((file, some size) ∷ fs) (x ∷ es) e p =
    let (e₁, rest, h, y, whole) =
      encoded-some (encode_file s toi user file (some size))
        (encode_files s (u64 (toi + 1)) user fs) (x ∷ es) e in
    subst (λ l. All PlainElement l) (sym whole)
      (
        subst PlainElement (encode_file-element s toi user file size e₁ h)
            (file_element-Plain toi file user size p.0),
        encode_files-Plain s (u64 (toi + 1)) user fs rest y p.1,
      )
