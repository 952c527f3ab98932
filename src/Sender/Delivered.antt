-- ===== src/Sender/Delivered.antt =====
-- A file from flutelib/sender.c to the receiver: cut into source blocks, which alclib/null_fec.c
-- encodes, whose units arrive at alclib/transport.c in any order, and which alclib/null_fec.c puts
-- together again.
use route.Base.{
  ℕ, ◌+◌, ◌*◌, ◌-◌, ◌^◌, ◌≤◌, ◌<◌, ◌≡◌, refl, ap, ◌∙◌, sym, arith, Bool, true, false, ◌⊎◌, Option,
  none, some, List, [], ◌∷◌, ◌++◌, All, length, if◌then◌else◌, replicate,
}
use mathlib.Core.Path.{subst}
use mathlib.Core.List.{append_assoc, append-nil}
use route.Text.{codes}
use route.Blocking.Division.{ceiling}
use route.Transport.{TransUnit, TransBlock, TransObj, create_block}
use route.Transport.Arrival.{insert_all, Reordered}
use route.NullFec.{null_fec_encode_src_block, null_fec_decode_object}
use route.NullFec.Delivery.{arrived-encoded}
use route.NullFec.Object.{object_bytes, decode_object-bytes}
use route.Fdt.{File}
use route.Sender.{Scheme, TxSession, SourceBlock, Outcome, sent, transfer_length}
use route.Sender.Blocks.{AreBlocks, content, send_all}
use route.Sender.Sizes.{FitsScheme}
use route.Sender.Whole.{send_opened, started, send_file-whole}

-- An `alc_send` that takes every block, and notes it.
abbrev pub note_block :
    SourceBlock → TxSession (List SourceBlock) → Outcome × TxSession (List SourceBlock)
note_block b s = (sent, record s { rest = s.rest ++ b ∷ [] })

-- The blocks that `send_file` hands over for a file that can be read.
abbrev pub sent_blocks :
    Bool → List ℕ → Scheme → File → TxSession (List SourceBlock) → List SourceBlock
sent_blocks thread bytes scheme file s =
    (send_opened note_block thread bytes scheme file (record s { rest = [] })).1.rest

-- The blocks of the receiver: the units of each encoded block have arrived in some order at an
-- object that counts no more bytes than its length.
pub data Arrived (es_len : ℕ) : List SourceBlock → List TransBlock → Type 0 where
  nothing : Arrived es_len [] []
  next :
      (b : SourceBlock) (tb : TransBlock) (us : List TransUnit) (to : TransObj)
      (blocks : List SourceBlock) (received : List TransBlock)
      → null_fec_encode_src_block b.buf b.sbn es_len ≡ some tb
      → Reordered tb.unit_list us
      → to.rx_bytes ≤ to.len
      → to.len < 2 ^ 63
      → Arrived es_len blocks received
      → Arrived es_len (b ∷ blocks) ((insert_all us (create_block, to)).0 ∷ received)

Arrived-content :
    (toi len : ℕ) (scheme : Scheme) (sbn : ℕ) (blocks : List SourceBlock)
    (received : List TransBlock)
    → scheme.es_len < 2 ^ 16
    → scheme.es_len * scheme.max_sb_len < 2 ^ 31
    → AreBlocks toi len scheme sbn blocks
    → Arrived scheme.es_len blocks received
    → (object_bytes received ≡ content blocks) × All (λ tb. 0 < length tb.unit_list) received
Arrived-content toi len scheme sbn blocks received f g are nothing = (refl, tt)
Arrived-content toi len scheme sbn blocks received f g are
      (next b tb us to more others e r bounded fits a) =
    let (bytes, some_unit) =
      arrived-encoded b.buf b.sbn scheme.es_len tb us to e r f are.4 (omega (arith, are.5)) bounded
        fits in
    let (rest, some_units) = Arrived-content toi len scheme (sbn + 1) more others f g are.6 a in
    (
      ap (λ (t : List ℕ). t ++ object_bytes others) bytes ∙ ap (λ (t : List ℕ). b.buf ++ t) rest,
      (some_unit, some_units),
    )

-- All blocks are noted, in their order.
send_all-note :
    (blocks : List SourceBlock) (s : TxSession (List SourceBlock))
    → send_all note_block false blocks s ≡ (sent, record s { rest = s.rest ++ blocks })
send_all-note [] s =
    ap (λ (r : List SourceBlock). (sent, record s { rest = r })) (sym (append-nil s.rest))
send_all-note (b ∷ blocks) s =
    send_all-note blocks (record s { rest = s.rest ++ b ∷ [] })
    ∙ ap (λ (r : List SourceBlock). (sent, record s { rest = r }))
        (append_assoc s.rest (b ∷ []) blocks)

module _ (thread : Bool) (bytes : List ℕ) (scheme : Scheme) (file : File)
    (s : TxSession (List SourceBlock)) where
  started_rest :
      (t : Bool)
      → (if t then record s { tx_toi = file.toi; rest = [] } else record s {
        tx_toi = file.toi;
        obj_sent_bytes = 0;
        last_print_tx_percent = 0;
        rest = [];
      }).rest
        ≡ []
  started_rest true = refl
  started_rest false = refl

  -- A file without errors in reading, not encoded or compressed before, of the length that its
  -- description says, with no more source blocks than a symbol has bytes, comes back from its
  -- source blocks: those that `send_file` hands over, none of which is refused, are encoded one by
  -- one by `null_fec_encode_src_block`; the units of each arrive one by one in any order; and
  -- `null_fec_decode_object` gives the bytes of the file, and a 0 behind them, if the object has
  -- these blocks and that length. The numbers fit the types of the code.
  pub decode_object-send_file :
      (file.encoding ≡ none) ⊎ (file.encoding ≡ some (codes "gzip"))
      → transfer_length file ≡ length bytes
      → FitsScheme (length bytes) scheme
      → ceiling (ceiling (length bytes) scheme.es_len) scheme.max_sb_len ≤ scheme.es_len
      → length bytes < 2 ^ 32 - 1
      → (to : TransObj) → to.len ≡ length bytes
      → Arrived scheme.es_len (sent_blocks thread bytes scheme file s) to.block_list
      → null_fec_decode_object to ≡ some (bytes ++ 0 ∷ [], length bytes)
  decode_object-send_file plain len fits few short to same arrived =
      let (blocks, are, all, e) =
        send_file-whole note_block thread bytes scheme file (record s { rest = [] }) plain len fits
          few in
      let (bytes_of, some_units) =
        Arrived-content file.toi (length bytes) scheme 0 blocks to.block_list fits.symbol
          fits.buffer are
          (subst (λ (bs : List SourceBlock). Arrived scheme.es_len bs to.block_list)
            (noted blocks e) arrived) in
      decode_object-bytes to (omega arith) some_units (omega (arith, ap length (bytes_of ∙ all)))
      ∙ filled_up (object_bytes to.block_list) bytes to.len (bytes_of ∙ all) same
    where
      one_more : (n : ℕ) → n + 1 - n ≡ 1
      one_more n = omega arith

      filled_up :
          (object bytes : List ℕ) (n : ℕ)
          → object ≡ bytes
          → n ≡ length bytes
          → ◌≡◌ {A = Option (List ℕ × ℕ)}
              (some (object ++ replicate (n + 1 - length object) 0, n))
              (some (bytes ++ 0 ∷ [], length bytes))
      filled_up object bytes n e f = rw (e, f, one_more (length bytes)) refl

      noted :
          (blocks : List SourceBlock)
          → send_opened note_block thread bytes scheme file (record s { rest = [] })
            ≡ send_all note_block false blocks (started thread file (record s { rest = [] }))
          → sent_blocks thread bytes scheme file s ≡ blocks
      noted blocks e =
          ap (λ (o : Outcome × TxSession (List SourceBlock)). o.1.rest)
            (e ∙ send_all-note blocks (started thread file (record s { rest = [] })))
          ∙ ap (λ (r : List SourceBlock). r ++ blocks) (started_rest thread)
