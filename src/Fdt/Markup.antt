-- ===== src/Fdt/Markup.antt =====
-- An instance of the file delivery table as an XML document: fprintf of flutelib/fdt_gen.c writes the
-- values of the attributes as they are, and the XML parser, a library, gives them to the handler of
-- flutelib/fdt.c. What it makes of a value is an argument, `none` where the document is not well-formed.
use route.Base.{
  ℕ, zero, suc, ◌+◌, ◌/◌, ◌%◌, ◌<◌, ◌≤◌, ◌≡◌, ◌≢◌, refl, arith, ap, sym, ◌∙◌, Bool, Option, none,
  some, List, [], ◌∷◌, All, ◌==◌, Bool-cases, inl, inr,
}
use route.Fdt.{File}
use route.Fdt.Instance.{Instance}
use route.Numbers.{decimal, digits_before}
use route.Numbers.Decimal.{last_digit, more_digits}
use route.Fdt.Elements.{Attribute, Element, decode_fdt_payload}
use mathlib.Core.Path.{subst}

-- A printable character of ASCII that is no markup in a value: not `&`, `"` or `<`.
abbrev pub IsPlain : ℕ → Type 0
IsPlain c = (32 ≤ c) × (c < 127) × (c ≢ b'&') × (c ≢ b'"') × (c ≢ b'<')

-- A value of such characters is given as it stands.
abbrev pub KeepsPlain : (List ℕ → Option (List ℕ)) → Type 0
KeepsPlain xml = (value : List ℕ) → All IsPlain value → xml value ≡ some value

abbrev pub prepend : {A : Type 0} → Option A → Option (List A) → Option (List A)
prepend (some x) (some xs) = some (x ∷ xs)
prepend (some x) none = none
prepend none xs = none

abbrev pub with_value : List ℕ → Option (List ℕ) → Option Attribute
with_value name none = none
with_value name (some value) = some (name, value)

abbrev pub given_attributes : (List ℕ → Option (List ℕ)) → List Attribute → Option (List Attribute)
given_attributes xml [] = some []
given_attributes xml ((name, value) ∷ atts) =
    prepend (with_value name (xml value)) (given_attributes xml atts)

abbrev pub with_attributes : List ℕ → Option (List Attribute) → Option Element
with_attributes name none = none
with_attributes name (some atts) = some (name, atts)

-- An element as the handler is given it.
abbrev pub given_element : (List ℕ → Option (List ℕ)) → Element → Option Element
given_element xml (name, atts) = with_attributes name (given_attributes xml atts)

abbrev pub given_elements : (List ℕ → Option (List ℕ)) → List Element → Option (List Element)
given_elements xml [] = some []
given_elements xml (e ∷ es) = prepend (given_element xml e) (given_elements xml es)

abbrev pub decode_given : Bool → Option (List Element) → Option (Instance × List File)
decode_given erange none = none
decode_given erange (some es) = decode_fdt_payload erange es

-- `decode_fdt_payload` for a document with these elements.
unfoldable pub decode_document :
    (List ℕ → Option (List ℕ)) → Bool → List Element → Option (Instance × List File)
unfolding decode_fdt_payload
decode_document xml erange es = decode_given erange (given_elements xml es)

abbrev pub PlainAttributes : List Attribute → Type 0
PlainAttributes = All (λ att. All IsPlain att.1)

abbrev pub PlainElement : Element → Type 0
PlainElement e = PlainAttributes e.1

given_attributes-plain :
    (xml : List ℕ → Option (List ℕ))
    → KeepsPlain xml
    → (atts : List Attribute) → PlainAttributes atts
    → given_attributes xml atts ≡ some atts
given_attributes-plain xml k [] p = refl
given_attributes-plain xml k ((name, value) ∷ atts) p =
    ap (λ o. prepend (with_value name o) (given_attributes xml atts)) (k value p.0)
    ∙ ap (λ o. prepend (some (name, value)) o) (given_attributes-plain xml k atts p.1)

pub given_element-plain :
    (xml : List ℕ → Option (List ℕ))
    → KeepsPlain xml
    → (e : Element) → PlainElement e
    → given_element xml e ≡ some e
given_element-plain xml k (name, atts) p =
    ap (λ o. with_attributes name o) (given_attributes-plain xml k atts p)

pub given_elements-plain :
    (xml : List ℕ → Option (List ℕ))
    → KeepsPlain xml
    → (es : List Element) → All PlainElement es
    → given_elements xml es ≡ some es
given_elements-plain xml k [] p = refl
given_elements-plain xml k (e ∷ es) p =
    ap (λ o. prepend o (given_elements xml es)) (given_element-plain xml k e p.0)
    ∙ ap (λ o. prepend (some e) o) (given_elements-plain xml k es p.1)

digits_before-Plain :
    (fuel n : ℕ) (text : List ℕ) → All IsPlain text → All IsPlain (digits_before fuel n text)
unfolding digits_before
digits_before-Plain zero n text p = p
digits_before-Plain (suc fuel) n text p = elim (Bool-cases (n / 10 == 0)) [
  | inl e ↦ subst (λ t. All IsPlain t) (sym (last_digit fuel n text e)) (digit n, p)
  | inr e ↦
      subst (λ t. All IsPlain t) (sym (more_digits fuel n text e))
        (digits_before-Plain fuel (n / 10) ((b'0' + n % 10) ∷ text) (digit n, p))
]
  where
    digit : (n : ℕ) → IsPlain (b'0' + n % 10)
    digit n = (omega arith, omega arith, (λ e. omega arith), (λ e. omega arith), (λ e. omega arith))

pub decimal-Plain : (n : ℕ) → All IsPlain (decimal n)
unfolding decimal
decimal-Plain n = digits_before-Plain 20 n [] tt
