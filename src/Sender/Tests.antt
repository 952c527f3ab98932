-- ===== src/Sender/Tests.antt =====
-- Runs of the sending of an object and the theorems at concrete inputs.
use route.Base.{
  ℕ, ◌<◌, ◌≡◌, refl, arith, Option, true, false, none, some, inl, List, [], ◌∷◌, ◌++◌, length,
}
use route.Transport.{TransUnit, TransBlock, TransObj, create_block}
use route.Transport.Arrival.{insert_all, as_is, exchange}
use route.NullFec.{null_fec_encode_src_block, null_fec_decode_object}
use route.Fdt.{File}
use route.Sender.{
  Scheme, s_active, TxSession, SourceBlock, send_fdt_instance, send_file, TxFile, Outcome,
  no_buffer, freed, after,
}
use route.Text.{codes, equal, split_at}
use route.Sender.Carousel.{
  Arguments, Carousel, back_in, send_described, send_described_files, announce_behind,
  chosen_scheme,
}
use route.Uri.{Uri, alloc_uri_struct}
use route.Sender.Behind.{send_described_files-freed}
use route.Sender.Blocks.{AreBlocks, content, send_all}
use route.Sender.Sizes.{FitsScheme}
use route.Sender.Whole.{
  send_opened, started, send_fdt_instance-whole, send_file-whole, send_file-truncated,
}
use route.Sender.Delivered.{
  note_block, sent_blocks, Arrived, nothing, next, decode_object-send_file,
}

abbrev two_by_two : Scheme
two_by_two = record { es_len = 2; max_sb_len = 2; fec_enc_id = 0; fec_inst_id = 0 }

abbrev narrow : Scheme
narrow = record { es_len = 1; max_sb_len = 2; fec_enc_id = 0; fec_inst_id = 0 }

abbrev five_bytes : List ℕ
five_bytes = 10 ∷ 11 ∷ 12 ∷ 13 ∷ 14 ∷ []

abbrev session : TxSession (List SourceBlock)
session = record {
  state = s_active;
  def_scheme = two_by_two;
  obj_sent_bytes = 0;
  last_print_tx_percent = 0;
  tx_toi = 0;
  fdt_instance_id = 0;
  rest = [];
}

abbrev five_file : File
five_file = record {
  status = 0;
  expires = 0;
  toi = 7;
  content_len = 5;
  location = none;
  md5 = none;
  encoding = none;
  type = none;
  fec_enc_id = some 0;
  fec_inst_id = none;
  finite_field = 0;
  nb_of_es_per_group = 0;
  max_sb_len = 2;
  es_len = 2;
  max_nb_of_es = 0;
  transfer_len = 0;
}

abbrev five_blocks : List SourceBlock
five_blocks =
    record { buf = 10 ∷ 11 ∷ 12 ∷ 13 ∷ []; toi = 7; transfer_len = 5; scheme = two_by_two; sbn = 0 }
    ∷ record { buf = 14 ∷ []; toi = 7; transfer_len = 5; scheme = two_by_two; sbn = 1 }
    ∷ []

send_file_runs : sent_blocks false five_bytes two_by_two five_file session ≡ five_blocks
unfolding send_file
send_file_runs = refl

-- The last byte is not sent.
truncated_runs :
    content (sent_blocks false five_bytes narrow five_file session) ≡ 10 ∷ 11 ∷ 12 ∷ 13 ∷ []
unfolding send_file
truncated_runs = refl

two_by_two_fits : FitsScheme (length five_bytes) two_by_two
two_by_two_fits = record {
  some_symbol = omega arith;
  some_block = omega arith;
  some_bytes = omega arith;
  symbol = omega arith;
  buffer = omega arith;
  bytes = omega arith;
  symbols = omega arith;
}

narrow_fits : FitsScheme (length five_bytes) narrow
narrow_fits = record {
  some_symbol = omega arith;
  some_block = omega arith;
  some_bytes = omega arith;
  symbol = omega arith;
  buffer = omega arith;
  bytes = omega arith;
  symbols = omega arith;
}

send_fdt_instance-whole_example :
    (blocks : List SourceBlock) × AreBlocks 0 5 two_by_two 0 blocks
    × (content blocks ≡ five_bytes)
    × (send_fdt_instance note_block true false five_bytes two_by_two session
        ≡ send_all note_block true blocks session)
send_fdt_instance-whole_example =
    send_fdt_instance-whole note_block false five_bytes two_by_two session two_by_two_fits
      (omega arith) (omega arith)

send_file-whole_example :
    (blocks : List SourceBlock) × AreBlocks 7 5 two_by_two 0 blocks
    × (content blocks ≡ five_bytes)
    × (send_opened note_block false five_bytes two_by_two five_file session
        ≡ send_all note_block false blocks (started false five_file session))
send_file-whole_example =
    send_file-whole note_block false five_bytes two_by_two five_file session (inl refl) refl
      two_by_two_fits (omega arith)

send_file-truncated_example :
    (blocks : List SourceBlock) × (length (content blocks) < 5)
    × (send_opened note_block false five_bytes narrow five_file session
        ≡ send_all note_block false blocks (started false five_file session))
send_file-truncated_example =
    send_file-truncated note_block false five_bytes narrow five_file session (inl refl) refl
      narrow_fits (omega arith)

abbrev receiver : List TransBlock → TransObj
receiver blocks = record {
  block_list = blocks;
  nb_of_ready_blocks = 0;
  fec_enc_id = 0;
  fec_inst_id = 0;
  content_enc_algo = 0;
  len = 5;
  rx_bytes = 0;
  toi = 7;
  es_len = 2;
  max_sb_len = 2;
}

abbrev first_unit : TransUnit
first_unit = record { esi = 0; len = 2; bytes = 10 ∷ 11 ∷ [] }

abbrev second_unit : TransUnit
second_unit = record { esi = 1; len = 2; bytes = 12 ∷ 13 ∷ [] }

abbrev third_unit : TransUnit
third_unit = record { esi = 0; len = 1; bytes = 14 ∷ [] }

abbrev encoded : ℕ → List TransUnit → TransBlock
encoded sbn units = record create_block {
  unit_list = units;
  sbn = sbn;
  n = length units;
  k = length units;
}

-- The units of the first block arrive in another order than they are sent.
abbrev received_blocks : List TransBlock
received_blocks =
    (insert_all (first_unit ∷ second_unit ∷ []) (create_block, receiver [])).0
    ∷ (insert_all (third_unit ∷ []) (create_block, receiver [])).0
    ∷ []

received_blocks-Arrived :
    Arrived 2 (sent_blocks false five_bytes two_by_two five_file session) received_blocks
unfolding send_file null_fec_encode_src_block
received_blocks-Arrived =
    next _ (encoded 0 (second_unit ∷ first_unit ∷ [])) _ (receiver []) _ _ refl
      (exchange second_unit first_unit []) (omega arith) (omega arith)
      (next _ (encoded 1 (third_unit ∷ [])) _ (receiver []) _ _ refl as_is (omega arith)
        (omega arith) nothing)

decode_object-send_file_example :
    null_fec_decode_object (receiver received_blocks) ≡ some (five_bytes ++ 0 ∷ [], 5)
decode_object-send_file_example =
    decode_object-send_file false five_bytes two_by_two five_file session (inl refl) refl
      two_by_two_fits (omega arith) (omega arith) (receiver received_blocks) refl
      received_blocks-Arrived

-- The sending of descriptions behind the files, with zlib.
abbrev behind_arguments : Arguments
behind_arguments = record {
  base_dir = [];
  file_path = codes "files";
  scheme = two_by_two;
  complete_fdt = 0;
  zlib_fdt = true;
  thread = false;
  send_fdt_after_obj = true;
}

abbrev named_file : File
named_file = record five_file { location = some (codes "file:///a") }

abbrev round : Carousel (List SourceBlock)
round = record {
  session = session;
  file_scheme = two_by_two;
  fdt_inst_buf = no_buffer;
  compr_fdt_inst_buf = no_buffer;
  nb_of_instances_in_last_round = 0;
}

abbrev create_nothing : List File → TxSession (List SourceBlock) → Option (List ℕ)
create_nothing files s = some five_bytes

abbrev only_file : List ℕ → TxFile
only_file path = record { stat = true; opened = some (record { left = five_bytes; bad = false }) }

abbrev sent_named : Outcome × Carousel (List SourceBlock)
unfolding send_described
sent_named =
    send_described note_block create_nothing (λ bytes. some bytes) only_file behind_arguments
      named_file round

abbrev local_uri : Uri
local_uri = record alloc_uri_struct { scheme = some (codes "file"); path = some (codes "a") }

send_described_files-freed_example :
    send_described_files note_block create_nothing
      (λ bytes. some bytes)
      only_file
      behind_arguments
      (named_file ∷ named_file ∷ [])
      round
    ≡ (let d = record sent_named.1 {
      fdt_inst_buf = no_buffer;
      file_scheme = chosen_scheme false named_file sent_named.1.file_scheme;
    } in
        after
          (announce_behind note_block create_nothing
            (λ bytes. some bytes)
            only_file
            behind_arguments
            named_file
            (back_in d (
              send_file note_block true true false
                (only_file (codes "a"))
                d.file_scheme
                named_file
                freed
                d.session)))
          (send_described_files note_block create_nothing
            (λ bytes. some bytes)
            only_file
            behind_arguments
            []))
unfolding send_described equal split_at
send_described_files-freed_example =
    send_described_files-freed note_block create_nothing (λ bytes. some bytes) only_file
      behind_arguments refl refl refl named_file named_file [] round sent_named.1
      (codes "file:///a") (codes "a") local_uri refl refl (λ e. omega arith) refl refl refl refl
      (omega arith)
