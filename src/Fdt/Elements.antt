-- ===== src/Fdt/Elements.antt =====
-- The loops of `startElement_FDT` and of `decode_fdt_payload` in flutelib/fdt.c, over the attributes
-- of an element and over the elements, as the XML parser gives them.
use route.Base.{
  ℕ, ◌+◌, Bool, true, false, Option, none, some, List, [], ◌∷◌, ◌++◌, if◌then◌else◌, u32,
}
use route.Text.{codes, equal}
use route.Packet.Send.Compose.{gf_bits}
use route.Fdt.{File}
use route.Fdt.Instance.{
  Instance, Parser, Kind, toi_kind, Handled, file_kind, instance_kind, file_attribute,
  instance_attribute,
}

-- The name and the value of an attribute, and the name and the attributes of an element.
abbrev pub Attribute : Type 0
Attribute = List ℕ × List ℕ

abbrev pub Element : Type 0
Element = List ℕ × List Attribute

-- A file as it begins.
abbrev pub file_of : Instance → File
file_of i = record {
  status = 0;
  expires = i.expires;
  toi = 0;
  content_len = 0;
  location = none;
  md5 = none;
  encoding = none;
  type = none;
  fec_enc_id = i.fec_enc_id;
  fec_inst_id = i.fec_inst_id;
  finite_field = i.finite_field;
  nb_of_es_per_group = i.nb_of_es_per_group;
  max_sb_len = i.max_sb_len;
  es_len = i.es_len;
  max_nb_of_es = i.max_nb_of_es;
  transfer_len = 0;
}

-- A file that an earlier element has left behind goes on.
abbrev pub entered : Parser → Option File → Parser × File
entered p (some f) = (p, f)
entered p none = (
  record p {
    instance_of = record p.instance_of { nb_of_files = u32 (p.instance_of.nb_of_files + 1) };
    linked = false;
  },
  file_of p.instance_of,
)

-- The list of the files with the current one, if it is linked.
abbrev pub linked_files : Bool → Option File → List File
linked_files true (some f) = f ∷ []
linked_files true none = []
linked_files false f = []

abbrev pub all_files : Parser → List File
all_files p = p.files ++ linked_files p.linked p.file

-- The end of the handler, which sets `file` to NULL.
abbrev pub leave : Parser → Parser
leave p = record p { files = all_files p; file = none; linked = false }

-- Behind an attribute: the loop goes on, the handler returns, or a file has been linked behind
-- itself, so that the list has no end.
pub data Outcome : Type 0 where
  next : Parser → Outcome
  stopped : Parser → Outcome
  cycle : Outcome

abbrev pub link : Kind → Parser → Outcome
link toi_kind p = if p.linked then cycle else next (record p { linked = true })
link _ p = next p

abbrev pub after : Kind → Handled File → Parser → Outcome
after kind h p =
    let p' = record p { file = some h.result; erange = h.erange } in
    if h.stop then stopped p' else link kind p'

unfoldable pub attribute : Attribute → Parser → Outcome
unfolding file_kind file_attribute
attribute (name, value) p =
    let (p', f) = entered p p.file in
    after (file_kind name) (file_attribute (file_kind name) value f p.erange) p'

abbrev pub inherited : Option (List ℕ) → Option (List ℕ) → Option (List ℕ)
inherited none common = common
inherited (some own) common = some own

abbrev pub with_common : Instance → Option File → Option File
with_common i none = none
with_common i (some f) =
    some (record f { type = inherited f.type i.type; encoding = inherited f.encoding i.encoding })

-- What the file takes from the instance behind its last attribute.
abbrev pub common_parameters : List Attribute → Parser → Parser
common_parameters [] p = record p { file = with_common p.instance_of p.file }
common_parameters (_ ∷ _) p = p

-- `none` where the list has no end.
abbrev pub follow : Outcome → (Parser → Option Parser) → Option Parser
follow (next p) k = k p
follow (stopped p) k = some p
follow cycle k = none

unfoldable pub file_attributes : List Attribute → Parser → Option Parser
unfolding attribute
file_attributes [] p = some (leave p)
file_attributes (a ∷ rest) p =
    follow (attribute a p) (λ q. file_attributes rest (common_parameters rest q))

unfoldable pub instance_attributes : List Attribute → Parser → Parser
unfolding instance_kind instance_attribute
instance_attributes [] p = leave p
instance_attributes ((name, value) ∷ rest) p =
    let h = instance_attribute (instance_kind name) value p.instance_of p.erange in
    let p' = record p { instance_of = h.result; erange = h.erange } in
    let further = instance_attributes rest p' in if h.stop then p' else further

unfoldable pub start_element : Element → Parser → Option Parser
unfolding equal file_attributes instance_attributes
start_element (name, atts) p =
    if equal name (codes "File")
    then file_attributes atts p
    else if equal name (codes "FDT-Instance")
    then some (instance_attributes atts p)
    else some (leave p)

abbrev pub empty_instance : Instance
empty_instance = record {
  expires = 0;
  complete = false;
  nb_of_files = 0;
  type = none;
  encoding = none;
  fec_enc_id = none;
  fec_inst_id = none;
  finite_field = gf_bits;
  nb_of_es_per_group = 1;
  max_sb_len = 0;
  es_len = 0;
  max_nb_of_es = 0;
}

abbrev pub fresh_parser : Bool → Parser
fresh_parser erange = record {
  instance_of = empty_instance;
  files = [];
  file = none;
  linked = false;
  erange = erange;
}

abbrev pub onward : (Parser → Option Parser) → Option Parser → Option Parser
onward k none = none
onward k (some p) = k p

unfoldable pub start_elements : List Element → Parser → Option Parser
unfolding start_element
start_elements [] p = some p
start_elements (e ∷ es) p = onward (λ q. start_elements es q) (start_element e p)

-- The instance and its files, after an XML document without errors.
abbrev pub result_of : Option Parser → Option (Instance × List File)
result_of none = none
result_of (some p) = some (p.instance_of, all_files p)

unfoldable pub decode_fdt_payload : Bool → List Element → Option (Instance × List File)
unfolding start_elements
decode_fdt_payload erange elements = result_of (start_elements elements (fresh_parser erange))
