-- ===== src/Fdt/Delivery.antt =====
-- The whole instance: written by flutelib/fdt_gen.c, read by flutelib/fdt.c, where the handler is
-- given each value as it was printed.
use route.Base.{
  ℕ, ◌+◌, ◌^◌, ◌<◌, ◌≡◌, refl, arith, ap, sym, ◌∙◌, Bool, true, false, Option, none, some, List, [],
  ◌∷◌, ◌++◌, ◌==◌, if◌then◌else◌, u64, length,
}
use mathlib.Core.Path.{subst}
use mathlib.Core.List.{append_assoc, append-nil}
use route.Fdt.{File}
use route.Fdt.Instance.{Instance}
use route.Fdt.Elements.{
  Element, start_elements, onward, empty_instance, fresh_parser, result_of, decode_fdt_payload,
}
use route.Fdt.Generate.{
  NamedFile, Session, file_element, Encoded, element, failure, unterminated, undefined, if_enough,
  encode_file, with_element, encode_files, zlib_fdt, is_enough_source_block_numbers, headed,
  generate_fdt, instance_element,
}
use route.Fdt.Exchange.{idle, one_more, described, element_read}
use route.Fdt.Announce.{Fits, announced, stop_of, with_oti, start_element-instance_element}

abbrev AsElement : Element → Encoded → Type 0
AsElement e (element e') = e ≡ e'
AsElement e _ = Unit

AsElement-if :
    (e : Element) (b : Bool) (x y : Encoded)
    → AsElement e x
    → AsElement e y
    → AsElement e (if b then x else y)
AsElement-if e true x y p q = p
AsElement-if e false x y p q = q

if_enough-AsElement : (e : Element) (o : Option Bool) → AsElement e (if_enough e o)
if_enough-AsElement e none = tt
if_enough-AsElement e (some true) = refl
if_enough-AsElement e (some false) = tt

-- A file that has been encoded is there, and its element is that of its size.
pub encode_file-element :
    (s : Session) (toi : ℕ) (user : Option (List ℕ)) (file : List ℕ) (n : ℕ) (e : Element)
    → encode_file s toi user file (some n) ≡ element e
    → file_element toi file user n ≡ e
unfolding encode_file
encode_file-element s toi user file n e h =
    let whole = file_element toi file user n in
    subst (AsElement whole) h (
      AsElement-if whole (n == 0) _ _ tt (
        AsElement-if whole (s.encode_content == 0) _ _
          (if_enough-AsElement whole (is_enough_source_block_numbers s n))
          (AsElement-if whole (s.encode_content == zlib_fdt) _ _ refl tt)))

pub encoded-some :
    (x : Encoded) (y : Option (List Element)) (es : List Element)
    → with_element x y ≡ some es
    → (e : Element) × (rest : List Element) × (x ≡ element e) × (y ≡ some rest) × (es ≡ e ∷ rest)
encoded-some (element e) (some rest) es h = (e, rest, refl, refl, cc)
encoded-some (element e) none es h = absurd (cc)
encoded-some failure y es h = absurd (cc)
encoded-some unterminated y es h = absurd (cc)
encoded-some undefined y es h = absurd (cc)

-- The instance after so many files, and the files.
counted : List NamedFile → Instance → Instance
counted [] i = i
counted (_ ∷ fs) i = counted fs (one_more i)

abbrev description : Instance → ℕ → Option (List ℕ) → NamedFile → List File
description i toi user (file, none) = []
description i toi user (file, some size) = described i toi file user size ∷ []

-- The files as they are described, with the TOIs from `toi` on.
abbrev pub descriptions : Instance → ℕ → Option (List ℕ) → List NamedFile → List File
descriptions i toi user [] = []
descriptions i toi user (f ∷ fs) = description i toi user f ++ descriptions i (toi + 1) user fs

-- The sizes fit 64 bits.
abbrev pub Sized : List NamedFile → Type 0
Sized [] = Unit
Sized ((file, none) ∷ fs) = Sized fs
Sized ((file, some size) ∷ fs) = (size < 2 ^ 64) × Sized fs

-- The count changes no description.
descriptions-one_more :
    (i : Instance) (toi : ℕ) (user : Option (List ℕ)) (fs : List NamedFile)
    → descriptions (one_more i) toi user fs ≡ descriptions i toi user fs
descriptions-one_more i toi user [] = refl
descriptions-one_more i toi user ((file, none) ∷ fs) = descriptions-one_more i (toi + 1) user fs
descriptions-one_more i toi user ((file, some size) ∷ fs) =
    ap (λ (l : List File). described i toi file user size ∷ l)
      (descriptions-one_more i (toi + 1) user fs)

files_read :
    (s : Session) (user : Option (List ℕ)) (fs : List NamedFile) (toi : ℕ) (i : Instance)
    (done : List File) (es : List Element)
    → encode_files s toi user fs ≡ some es
    → Sized fs
    → toi + length fs < 2 ^ 64
    → start_elements es (idle i done)
      ≡ some (idle (counted fs i) (done ++ descriptions i toi user fs))
unfolding encode_files start_elements counted
files_read s user [] toi i done [] e z l = ap (λ files. some (idle i files)) (sym (append-nil done))
files_read s user [] toi i done (x ∷ es) e z l = absurd (cc)
files_read s user ((file, none) ∷ fs) toi i done es e z l = absurd (cc)
files_read s user ((file, some size) ∷ fs) toi i done es e z l =
    let (e₁, rest, x, y, whole) =
      encoded-some (encode_file s toi user file (some size))
        (encode_files s (u64 (toi + 1)) user fs) es e in
    let f = described i toi file user size in
    let next_toi : toi + 1 ≡ u64 (toi + 1) = omega arith in
    ap (λ t. start_elements t (idle i done)) whole
    ∙ ap (λ t. start_elements (t ∷ rest) (idle i done))
        (sym (encode_file-element s toi user file size e₁ x))
    ∙ ap (onward (λ q. start_elements rest q))
        (element_read i done toi file user size (omega arith) z.0)
    ∙ files_read s user fs (toi + 1) (one_more i) (done ++ f ∷ []) rest
        (ap (λ t. encode_files s t user fs) next_toi ∙ y) z.1 (omega arith)
    ∙ ap (λ files. some (idle (counted fs (one_more i)) ((done ++ f ∷ []) ++ files)))
        (descriptions-one_more i (toi + 1) user fs)
    ∙ ap (λ files. some (idle (counted fs (one_more i)) files))
        (append_assoc done (f ∷ []) (descriptions i (toi + 1) user fs))

counted-length :
    (fs : List NamedFile) (i : Instance)
    → i.nb_of_files + length fs < 2 ^ 32
    → counted fs i ≡ record i { nb_of_files = i.nb_of_files + length fs }
unfolding counted
counted-length [] i l = ap (λ n. record i { nb_of_files = n }) (omega arith)
counted-length (_ ∷ fs) i l =
    counted-length fs (one_more i) (omega arith)
    ∙ ap (λ n. record i { nb_of_files = n }) (omega arith)

pub headed-some :
    (x : Element) (y : Option (List Element)) (es : List Element)
    → headed x y ≡ some es
    → (rest : List Element) × (y ≡ some rest) × (es ≡ x ∷ rest)
headed-some x none es h = absurd (cc)
headed-some x (some rest) es h = (rest, refl, cc)

announced-none : (s : Session) (c : Bool) → (announced s c).nb_of_files ≡ 0
unfolding announced
announced-none s c =
    without s.use_fec_oti_ext_hdr (record empty_instance { expires = stop_of s; complete = c }) refl
  where
    without :
        (b : Bool) (i : Instance)
        → i.nb_of_files ≡ 0
        → (if b then i else with_oti s i).nb_of_files ≡ 0
    without true i e = e
    without false i e = e

-- The elements of a document, given to the handler as they are printed.
pub decode_printed :
    (s : Session) (complete_fdt : Bool) (user : Option (List ℕ)) (fs : List NamedFile)
    (es : List Element)
    → Fits s
    → Sized fs
    → length fs < 2 ^ 32
    → generate_fdt s complete_fdt user fs ≡ some es
    → decode_fdt_payload false es
      ≡ some (
        record (announced s complete_fdt) { nb_of_files = length fs },
        descriptions (announced s complete_fdt) 1 user fs,
      )
unfolding decode_fdt_payload generate_fdt start_elements
decode_printed s complete_fdt user fs es h z l e =
    let i = announced s complete_fdt in
    let (rest, y, whole) =
      headed-some (instance_element s complete_fdt) (encode_files s 1 user fs) es e in
    let small : i.nb_of_files + length fs < 2 ^ 32 =
      omega (arith, announced-none s complete_fdt, l) in
    ap (λ t. result_of (start_elements t (fresh_parser false))) whole
    ∙ ap (λ o. result_of (onward (λ q. start_elements rest q) o))
        (start_element-instance_element s complete_fdt h)
    ∙ ap result_of (files_read s user fs 1 i [] rest y z (omega arith))
    ∙ ap (λ j. some (j, descriptions i 1 user fs ++ [])) (counted-length fs i small)
    ∙ ap (λ files. some (record i { nb_of_files = i.nb_of_files + length fs }, files))
        (append-nil (descriptions i 1 user fs))
    ∙ ap (λ n. some (record i { nb_of_files = n }, descriptions i 1 user fs))
        (omega (arith, announced-none s complete_fdt))
