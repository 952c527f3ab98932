-- ===== src/Sender.antt =====
-- The sending of the file delivery table and of a file: `send_fdt_instance` and `send_file` of
-- flutelib/sender.c. `alc_send`, the interface of the layer below, is an argument; printing is left
-- out. `undefined` is an access outside of a buffer, a null pointer, or a division by 0.
pub mod Carousel
pub mod Behind
pub mod Blocks
pub mod Loops
pub mod Parts
pub mod Sizes
pub mod Whole
pub mod Delivered
mod Tests
use route.Base.{
  ℕ, zero, suc, ◌+◌, ◌-◌, ◌*◌, ◌/◌, ◌^◌, ◌%◌, Bool, true, false, ◌&&◌, ◌||◌, not, ◌==◌, Option,
  none, some, List, ◌++◌, ltb, leb, if◌then◌else◌, u32, length, take, drop, replicate,
}
use route.Text.{codes, equal}
use route.Blocking.{BlockingStruct, Computed, null, fault, ok, compute_blocking_structure}
use route.Fdt.{File}

-- `enum alc_session_states`
pub data SessionState : Type 0 where
  s_error s_active s_exiting s_tx_stopped s_closed s_a_flag_received s_paused : SessionState

abbrev pub is_exiting : SessionState → Bool
is_exiting s_exiting = true
is_exiting _ = false

-- The parameters of a transport object.
pub record Scheme : Type 0 where
  pub es_len : ℕ
  pub max_sb_len : ℕ
  pub fec_enc_id : ℕ
  pub fec_inst_id : ℕ

-- What of `alc_session_t` the functions read or write, and the rest, which `alc_send` may change.
-- The percentage is the pattern of a `double`.
pub record TxSession (S : Type 0) : Type 0 where
  pub state : SessionState
  pub def_scheme : Scheme
  pub obj_sent_bytes : ℕ
  pub last_print_tx_percent : ℕ
  pub tx_toi : ℕ
  pub fdt_instance_id : ℕ
  pub rest : S

-- The arguments of `alc_send`: a source block of an object, with its bytes.
pub record SourceBlock : Type 0 where
  pub buf : List ℕ
  pub toi : ℕ
  pub transfer_len : ℕ
  pub scheme : Scheme
  pub sbn : ℕ

-- The results -1 and -2, and any other; -2 may come with the buffer of the instance freed.
pub data Outcome : Type 0 where
  sent failed exiting exiting_freed undefined : Outcome

-- The returns after a call.
abbrev pub after : {T : Type 0} → Outcome × T → (T → Outcome × T) → Outcome × T
after (sent, s) next = next s
after (failed, s) next = (failed, s)
after (exiting, s) next = (exiting, s)
after (exiting_freed, s) next = (exiting_freed, s)
after (undefined, s) next = (undefined, s)

-- The end of the sending of an instance before the block `sbn`, with `free(buf)`: the pointer is null
-- at first, then the instance, which is not the function's to free, and then a place within it.
abbrev pub exit_at : ℕ → Outcome
exit_at zero = exiting
exit_at (suc zero) = exiting_freed
exit_at (suc (suc sbn)) = undefined

-- `<` on `int`.
abbrev pub int_ltb : ℕ → ℕ → Bool
int_ltb a b = ltb ((a + 2 ^ 31) % 2 ^ 32) ((b + 2 ^ 31) % 2 ^ 32)

-- Whether that many bytes can be taken from a buffer of that size; the number is an `int`.
abbrev pub within : ℕ → ℕ → Bool
within n size = leb n size && ltb n (2 ^ 31)

-- The bytes of a source block.
abbrev pub block_bytes : ℕ → BlockingStruct → ℕ → ℕ
block_bytes es_len bs sbn = u32 (es_len * (if ltb sbn bs.i then bs.a_large else bs.a_small))

-- A pointer to a buffer with an instance of the file delivery table.
pub data Buffer : Type 0 where
  no_buffer freed : Buffer
  holds : List ℕ → Buffer

-- A file that is read: the bytes to come, and whether an error comes behind them.
pub record Stream : Type 0 where
  pub left : List ℕ
  pub bad : Bool

-- What of the file system `send_file` sees: the results of `stat64` and of `fopen64`.
pub record TxFile : Type 0 where
  pub stat : Bool
  pub opened : Option Stream

-- `ferror` after `fread`.
abbrev pub read_fails : ℕ → Stream → Bool
read_fails n fp = fp.bad && ltb (length fp.left) n

abbrev pub fdt_interval : ℕ
fdt_interval = 1048576

abbrev pub transfer_length_of : Option (List ℕ) → File → ℕ
transfer_length_of none file = file.content_len
transfer_length_of (some encoding) file = file.transfer_len

abbrev pub transfer_length : File → ℕ
transfer_length file = transfer_length_of file.encoding file

module _ {S : Type 0} (alc_send : SourceBlock → TxSession S → Outcome × TxSession S) where
  -- The rounds of the loop from `sbn` on; `left` is the buffer from `sentbytes` on.
  unfoldable pub send_fdt_blocks :
      ℕ → ℕ → BlockingStruct → Scheme → ℕ → List ℕ → ℕ → TxSession S → Outcome × TxSession S
  send_fdt_blocks zero sbn bs scheme transfer_len left bytes_left s = (sent, s)
  send_fdt_blocks (suc rounds) sbn bs scheme transfer_len left bytes_left s =
      let size = block_bytes scheme.es_len bs sbn in
      let nbytes = if int_ltb bytes_left size then bytes_left else size in
      if is_exiting s.state
      then (exit_at sbn, s)
      else if not (within nbytes (length left))
      then (undefined, s)
      else after
          (alc_send
            (record {
              buf = take nbytes left;
              toi = 0;
              transfer_len = transfer_len;
              scheme = scheme;
              sbn = sbn;
            })
            s)
          (send_fdt_blocks rounds (sbn + 1) bs scheme transfer_len (drop nbytes left)
            (u32 (bytes_left + (2 ^ 32 - nbytes))))

  abbrev pub with_structure :
      Computed
      → TxSession S
      → (BlockingStruct → TxSession S → Outcome × TxSession S)
      → Outcome × TxSession S
  with_structure null s next = (undefined, s)
  with_structure fault s next = (undefined, s)
  with_structure (ok bs) s next = next bs s

  -- `alloc` is the success of the allocation of the blocking structure, whose failure is not
  -- tested; `thread` is `tx_mode == TX_THREAD`; the buffer has `fdt_inst_len` bytes.
  unfoldable pub send_fdt_instance :
      Bool → Bool → List ℕ → Scheme → TxSession S → Outcome × TxSession S
  unfolding send_fdt_blocks compute_blocking_structure
  send_fdt_instance alloc thread fdt_instance scheme s =
      let len = length fdt_instance in
      with_structure (compute_blocking_structure alloc len scheme.max_sb_len scheme.es_len)
        (if thread then s else record s { obj_sent_bytes = 0 })
        (λ bs. send_fdt_blocks bs.n 0 bs scheme len fdt_instance (u32 len))

  -- The call of `alc_send` for the bytes that have been read into a cleared buffer of `capacity`
  -- bytes; another encoding sends nothing, and leaves the result of the round before.
  abbrev pub send_read :
      Option (List ℕ)
      → ℕ
      → ℕ
      → List ℕ
      → (List ℕ → SourceBlock)
      → TxSession S
      → Outcome × TxSession S
  send_read none capacity nbytes bytes block s = alc_send (block bytes) s
  send_read (some encoding) capacity nbytes bytes block s =
      if equal encoding (codes "gzip")
      then alc_send (block bytes) s
      else if equal encoding (codes "pad")
      then (if within nbytes capacity
          then alc_send (block (bytes ++ replicate (nbytes - length bytes) 0)) s
          else (undefined, s))
      else (sent, s)

  -- The file delivery table between two blocks: once for each `FDT_INTERVAL` that is begun.
  abbrev pub interleave :
      Buffer
      → Bool
      → Bool
      → ℕ
      → (ℕ → TxSession S → Outcome × TxSession S)
      → TxSession S
      → Outcome × TxSession S
  interleave no_buffer alloc thread mbytes next s = next mbytes s
  interleave freed alloc thread mbytes next s =
      if ltb mbytes (s.obj_sent_bytes / fdt_interval) then (undefined, s) else next mbytes s
  interleave (holds fdt_inst_buf) alloc thread mbytes next s =
      let reached = s.obj_sent_bytes / fdt_interval in
      if ltb mbytes reached
      then after (send_fdt_instance alloc thread fdt_inst_buf s.def_scheme s) (λ s'.
        next (u32 reached) (record s' {
          obj_sent_bytes = s.obj_sent_bytes;
          last_print_tx_percent = s.last_print_tx_percent;
        }))
      else next mbytes s

  -- The rounds of the loop of `send_file` from `sbn` on. `seekBack` stays false.
  unfoldable pub send_file_blocks :
      ℕ
      → ℕ
      → BlockingStruct
      → Scheme
      → File
      → ℕ
      → Buffer
      → Bool
      → Bool
      → Stream
      → ℕ
      → TxSession S
      → Outcome × TxSession S
  send_file_blocks zero sbn bs scheme file transfer_len fdt alloc thread fp mbytes s = (sent, s)
  send_file_blocks (suc rounds) sbn bs scheme file transfer_len fdt alloc thread fp mbytes s =
      let nbytes = block_bytes scheme.es_len bs sbn in
      let bytes = take nbytes fp.left in
      let capacity = u32 (scheme.es_len * scheme.max_sb_len) in
      if not (within (length bytes) capacity)
      then (undefined, s)
      else if read_fails nbytes fp
      then (failed, s)
      else after
          (send_read file.encoding capacity nbytes bytes
            (λ buf. record {
              buf = buf;
              toi = file.toi;
              transfer_len = transfer_len;
              scheme = scheme;
              sbn = sbn;
            })
            s)
          (interleave fdt alloc thread mbytes (
            send_file_blocks rounds (sbn + 1) bs scheme file transfer_len fdt alloc thread
              (record fp { left = drop nbytes fp.left })))

  abbrev pub with_stream :
      Option Stream → TxSession S → (Stream → Outcome × TxSession S) → Outcome × TxSession S
  with_stream none s next = (failed, s)
  with_stream (some fp) s next = next fp

  -- `calloc` is the success of the allocation of the buffer.
  unfoldable pub send_file :
      Bool → Bool → Bool → TxFile → Scheme → File → Buffer → TxSession S → Outcome × TxSession S
  unfolding send_file_blocks compute_blocking_structure
  send_file calloc alloc thread tx_file scheme file fdt s₀ =
      let s = record s₀ { tx_toi = file.toi } in
      let len = transfer_length file in
      if not tx_file.stat || (len == 0) || ltb 0xFFFFFFFFFFFF len || not calloc
      then (failed, s)
      else with_stream tx_file.opened s (λ fp.
        with_structure (compute_blocking_structure alloc len scheme.max_sb_len scheme.es_len)
          (if thread then s else record s { obj_sent_bytes = 0; last_print_tx_percent = 0 })
          (λ bs. send_file_blocks bs.n 0 bs scheme file len fdt alloc thread fp 0))
