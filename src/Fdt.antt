-- ===== src/Fdt.antt =====
-- The file delivery table: flutelib/fdt.h and the functions of flutelib/fdt.c that work on the list
-- of files. A doubly linked list is the list of its elements; a string that is NULL and an id of -1
-- are `none`; a call holds the lock of the table, and allocations succeed. The lists of files that
-- the XML parser builds are arguments.
pub mod Completed
pub mod Copying
pub mod Merge
pub mod Instance
pub mod Elements
pub mod Generate
pub mod Location
pub mod Exchange
pub mod Announce
pub mod Delivery
pub mod Malformed
pub mod Markup
pub mod Plain
pub mod Document
pub mod Names
mod Tests
use route.Base.{
  ℕ, ◌+◌, ◌%◌, ◌^◌, Bool, true, false, ◌&&◌, ◌||◌, not, Option, none, some, List, [], ◌∷◌, ◌==◌,
  if◌then◌else◌, u32,
}

-- `file_t`
pub record File : Type 0 where
  pub status : ℕ
  pub expires : ℕ
  pub toi : ℕ
  pub content_len : ℕ
  pub location : Option (List ℕ)
  pub md5 : Option (List ℕ)
  pub encoding : Option (List ℕ)
  pub type : Option (List ℕ)
  pub fec_enc_id : Option ℕ
  pub fec_inst_id : Option ℕ
  pub finite_field : ℕ
  pub nb_of_es_per_group : ℕ
  pub max_sb_len : ℕ
  pub es_len : ℕ
  pub max_nb_of_es : ℕ
  pub transfer_len : ℕ

-- A field that is not 0 is copied over one that is, and whether it is.
unfoldable pub copy_number : ℕ → ℕ → ℕ
copy_number src dest = if not (src == 0) then (if dest == 0 then src else dest) else dest

unfoldable pub number_updated : ℕ → ℕ → Bool
number_updated src dest = not (src == 0) && (dest == 0)

-- The same of a field that is absent or present.
unfoldable pub copy_field : {A : Type 0} → Option A → Option A → Option A
copy_field src (some d) = some d
copy_field src none = src

unfoldable pub field_updated : {A : Type 0} → Option A → Option A → Bool
field_updated src (some d) = false
field_updated (some s) none = true
field_updated none none = false

-- The destination; three fields are never copied.
unfoldable pub copied_info : File → File → File
unfolding copy_number copy_field
copied_info src dest = record dest {
  toi = copy_number src.toi dest.toi;
  expires = copy_number src.expires dest.expires;
  transfer_len = copy_number src.transfer_len dest.transfer_len;
  content_len = copy_number src.content_len dest.content_len;
  fec_enc_id = copy_field src.fec_enc_id dest.fec_enc_id;
  fec_inst_id = copy_field src.fec_inst_id dest.fec_inst_id;
  max_sb_len = copy_number src.max_sb_len dest.max_sb_len;
  es_len = copy_number src.es_len dest.es_len;
  max_nb_of_es = copy_number src.max_nb_of_es dest.max_nb_of_es;
  location = copy_field src.location dest.location;
  type = copy_field src.type dest.type;
  md5 = copy_field src.md5 dest.md5;
  encoding = copy_field src.encoding dest.encoding;
}

unfoldable pub info_updated : File → File → Bool
unfolding number_updated field_updated
info_updated src dest =
    number_updated src.toi dest.toi
    || number_updated src.expires dest.expires
    || number_updated src.transfer_len dest.transfer_len
    || number_updated src.content_len dest.content_len
    || field_updated src.fec_enc_id dest.fec_enc_id
    || field_updated src.fec_inst_id dest.fec_inst_id
    || number_updated src.max_sb_len dest.max_sb_len
    || number_updated src.es_len dest.es_len
    || number_updated src.max_nb_of_es dest.max_nb_of_es
    || field_updated src.location dest.location
    || field_updated src.type dest.type
    || field_updated src.md5 dest.md5
    || field_updated src.encoding dest.encoding

unfoldable pub copy_file_info : File → File → Bool × File
unfolding copied_info info_updated
copy_file_info src dest = (info_updated src dest, copied_info src dest)

-- A new file, as `calloc` and the two assignments behind it leave it.
abbrev pub new_file : File
new_file = record {
  status = 0;
  expires = 0;
  toi = 0;
  content_len = 0;
  location = none;
  md5 = none;
  encoding = none;
  type = none;
  fec_enc_id = none;
  fec_inst_id = none;
  finite_field = 0;
  nb_of_es_per_group = 0;
  max_sb_len = 0;
  es_len = 0;
  max_nb_of_es = 0;
  transfer_len = 0;
}

-- `fdt_t`, of which the functions change the files and their number.
pub record Fdt : Type 0 where
  pub file_list : List File
  pub nb_of_files : ℕ

-- `updated`, the files and their number.
abbrev pub Walk : Type 0
Walk = ℕ × List File × ℕ

abbrev pub behind : File → Walk → Walk
behind f (updated, files, nb) = (updated, f ∷ files, nb)

-- A file that the table has, and one that it does not have.
abbrev pub complement : File → File → List File → ℕ → ℕ → Walk
complement tmp f rest nb updated =
    let (ret, f') = copy_file_info tmp f in
    (if ret && not (updated == 2) then 1 else updated, f' ∷ rest, nb)

abbrev pub append_new : File → File → ℕ → ℕ → Walk
append_new tmp f nb updated =
    let (ret, f') = copy_file_info tmp new_file in
    (if ret then 2 else updated, f ∷ f' ∷ [], u32 (nb + 1))

-- The inner loop of `update_fdt`, from the file `f` on.
unfoldable pub merge_file : File → File → List File → ℕ → ℕ → Walk
unfolding copy_file_info
merge_file tmp f [] nb updated =
    if tmp.toi == f.toi then complement tmp f [] nb updated else append_new tmp f nb updated
merge_file tmp f (next ∷ rest) nb updated =
    let further = merge_file tmp next rest nb updated in
    if tmp.toi == f.toi then complement tmp f (next ∷ rest) nb updated else behind f further

-- The outer loop; `none` reads the first file of an empty table.
unfoldable pub merge_files : List File → Walk → Option Walk
unfolding merge_file
merge_files [] w = some w
merge_files (tmp ∷ rest) (updated, [], nb) = none
merge_files (tmp ∷ rest) (updated, f ∷ fs, nb) = merge_files rest (merge_file tmp f fs nb updated)

-- The result and the table after the call.
unfoldable pub update_fdt : Fdt → List File → Option Walk
unfolding merge_files
update_fdt fdt_db files = merge_files files (0, fdt_db.file_list, fdt_db.nb_of_files)

unfoldable pub find_file_with_toi : List File → ℕ → Option File
find_file_with_toi [] toi = none
find_file_with_toi (file ∷ rest) toi =
    if file.toi == toi then some file else find_file_with_toi rest toi
