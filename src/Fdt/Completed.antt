-- ===== src/Fdt/Completed.antt =====
-- A table of descriptions, and its completion by further ones: what `update_fdt` of flutelib/fdt.c is
-- for.
use route.Base.{
  ℕ, false, Option, none, some, List, [], ◌∷◌, ◌==◌, ◌&&◌, ◌||◌, Bool, true, not, max,
  if◌then◌else◌,
}
use route.Fdt.{File, new_file, find_file_with_toi}

-- The abstract table.
abbrev pub Table : Type 0
Table = ℕ → Option File

abbrev pub table_of : List File → Table
table_of files toi = find_file_with_toi files toi

-- Of two values of a field, the older one, if it is set.
abbrev pub first_number : ℕ → ℕ → ℕ
first_number older newer = if older == 0 then newer else older

abbrev pub first_field : {A : Type 0} → Option A → Option A → Option A
first_field none newer = newer
first_field (some x) newer = some x

-- A description completed by another: no field that is set changes, and three that `update_fdt` does
-- not look at never do.
abbrev pub completed_by : File → File → File
completed_by f tmp = record {
  status = f.status;
  expires = first_number f.expires tmp.expires;
  toi = first_number f.toi tmp.toi;
  content_len = first_number f.content_len tmp.content_len;
  location = first_field f.location tmp.location;
  md5 = first_field f.md5 tmp.md5;
  encoding = first_field f.encoding tmp.encoding;
  type = first_field f.type tmp.type;
  fec_enc_id = first_field f.fec_enc_id tmp.fec_enc_id;
  fec_inst_id = first_field f.fec_inst_id tmp.fec_inst_id;
  finite_field = f.finite_field;
  nb_of_es_per_group = f.nb_of_es_per_group;
  max_sb_len = first_number f.max_sb_len tmp.max_sb_len;
  es_len = first_number f.es_len tmp.es_len;
  max_nb_of_es = first_number f.max_nb_of_es tmp.max_nb_of_es;
  transfer_len = first_number f.transfer_len tmp.transfer_len;
}

-- A field that the first lacks and the second has.
abbrev pub lacks_number : ℕ → ℕ → Bool
lacks_number older newer = (older == 0) && not (newer == 0)

abbrev pub lacks_field : {A : Type 0} → Option A → Option A → Bool
lacks_field none none = false
lacks_field none (some x) = true
lacks_field (some x) newer = false

abbrev pub lacks : File → File → Bool
lacks f tmp =
    lacks_number f.toi tmp.toi
    || lacks_number f.expires tmp.expires
    || lacks_number f.transfer_len tmp.transfer_len
    || lacks_number f.content_len tmp.content_len
    || lacks_field f.fec_enc_id tmp.fec_enc_id
    || lacks_field f.fec_inst_id tmp.fec_inst_id
    || lacks_number f.max_sb_len tmp.max_sb_len
    || lacks_number f.es_len tmp.es_len
    || lacks_number f.max_nb_of_es tmp.max_nb_of_es
    || lacks_field f.location tmp.location
    || lacks_field f.type tmp.type
    || lacks_field f.md5 tmp.md5
    || lacks_field f.encoding tmp.encoding

-- A description completes the one that is there, or an empty one.
abbrev pub completed : File → Option File → Option File
completed tmp none = some (completed_by new_file tmp)
completed tmp (some f) = some (completed_by f tmp)

abbrev pub with_file : File → Table → Table
with_file tmp t n = if tmp.toi == n then completed tmp (t n) else t n

abbrev pub merged : List File → Table → Table
merged [] t toi = t toi
merged (tmp ∷ rest) t toi = merged rest (with_file tmp t) toi

-- What a description adds: 2 for a new file, 1 for a field of one that is there, 0 for nothing.
abbrev pub grade : File → Option File → ℕ
grade tmp none = if lacks new_file tmp then 2 else 0
grade tmp (some f) = if lacks f tmp then 1 else 0

-- The most that one of the descriptions adds.
abbrev pub graded : List File → Table → ℕ
graded [] t = 0
graded (tmp ∷ rest) t = max (grade tmp (t tmp.toi)) (graded rest (with_file tmp t))
