-- ===== src/Sender/Whole.antt =====
-- Whole objects in flutelib/sender.c: an instance of the file delivery table and a file reach
-- `alc_send` completely if they have no more source blocks than a symbol has bytes.
use route.Base.{
  ℕ, ◌*◌, ◌^◌, ◌≤◌, ◌%◌, ◌<◌, ◌≡◌, refl, arith, Bool, true, false, ◌⊎◌, none, some, List, length,
  if◌then◌else◌, u32, ltb, ◌==◌,
}
use route.Text.{codes}
use route.Blocking.{BlockingStruct}
use route.Blocking.Division.{ceiling}
use route.Blocking.Partition.{IsPartition, ceiling-mul_ge}
use route.Fdt.{File}
use route.Sender.{
  Scheme, TxSession, SourceBlock, Outcome, block_bytes, send_fdt_instance, send_file,
  transfer_length, no_buffer,
}
use route.Sender.Blocks.{
  AreBlocks, content, send_all, cut_blocks, room-eq, content-cut_blocks, content-cut_blocks-le,
  cut_blocks-AreBlocks,
}
use route.Sender.Loops.{send_fdt_blocks-cut, send_file_blocks-cut}
use route.Sender.Sizes.{
  FitsScheme, partition, room-truncated, block_bytes-le, block_bytes-short, block_bytes-large,
  covered, large-pos, large-le, needed,
}

module _ (l : ℕ) (scheme : Scheme) (fits : FitsScheme l scheme)
    (few : ceiling (ceiling l scheme.es_len) scheme.max_sb_len ≤ scheme.es_len)
    (bs : BlockingStruct)
    (p : IsPartition (ceiling l scheme.es_len) scheme.max_sb_len scheme.es_len bs) (toi : ℕ)
    (object : List ℕ) (e : length object ≡ l) where
  few_blocks : bs.n ≤ scheme.es_len
  few_blocks = omega (
    arith,
    p.fewest (ceiling (ceiling l scheme.es_len) scheme.max_sb_len)
        (ceiling-mul_ge (ceiling l scheme.es_len) scheme.max_sb_len fits.some_block),
    few,
  )

  blocks-AreBlocks :
      AreBlocks toi l scheme 0
        (cut_blocks toi l scheme (block_bytes scheme.es_len bs) bs.n 0 object)
  blocks-AreBlocks =
      cut_blocks-AreBlocks toi l scheme (block_bytes scheme.es_len bs) (scheme.es_len * bs.a_large)
        scheme.es_len bs.n 0 object (block_bytes-large l scheme fits bs p)
        (omega (arith, few_blocks)) (large-le l scheme fits bs p) (large-pos l scheme fits bs p)
        (omega (arith, e, needed l scheme fits bs p))

  blocks-content :
      content (cut_blocks toi l scheme (block_bytes scheme.es_len bs) bs.n 0 object) ≡ object
  blocks-content = content-cut_blocks toi l scheme (block_bytes scheme.es_len bs) bs.n 0 object (
      omega (
        arith,
        e,
        covered l scheme fits bs p,
        room-eq toi l scheme (block_bytes scheme.es_len bs) (scheme.es_len * bs.a_large)
            scheme.es_len bs.n 0 (block_bytes-large l scheme fits bs p) (omega (arith, few_blocks)),
      ))

-- An instance of the file delivery table of less than 2^31 bytes, with no more source blocks than
-- a symbol has bytes, goes to `alc_send` as blocks of the object 0, numbered from 0 on, none of
-- which is empty or too long, and which together are the instance; the test of the state before
-- each block, which frees what is not to be freed unless the block is the first, and the first
-- result of `alc_send` below 0 end the sending, whatever `alc_send` does. The numbers fit the types
-- of the code.
pub send_fdt_instance-whole :
    {S : Type 0} (alc_send : SourceBlock → TxSession S → Outcome × TxSession S) (thread : Bool)
    (fdt : List ℕ) (scheme : Scheme) (s : TxSession S)
    → FitsScheme (length fdt) scheme
    → length fdt < 2 ^ 31
    → ceiling (ceiling (length fdt) scheme.es_len) scheme.max_sb_len ≤ scheme.es_len
    → (blocks : List SourceBlock) × AreBlocks 0 (length fdt) scheme 0 blocks
      × (content blocks ≡ fdt)
      × (send_fdt_instance alc_send true thread fdt scheme s
          ≡ send_all alc_send true blocks (if thread then s else record s { obj_sent_bytes = 0 }))
unfolding send_fdt_instance
send_fdt_instance-whole alc_send thread fdt scheme s fits short few =
    let l = length fdt in
    let (bs, e, p) = partition l scheme fits in
    (
      cut_blocks 0 l scheme (block_bytes scheme.es_len bs) bs.n 0 fdt,
      blocks-AreBlocks l scheme fits few bs p 0 fdt refl,
      blocks-content l scheme fits few bs p 0 fdt refl,
      rw (e, same_length l short)
          (send_fdt_blocks-cut alc_send bs scheme l (block_bytes-short l scheme fits bs p) bs.n 0
            fdt (if thread then s else record s { obj_sent_bytes = 0 }) short),
    )
  where
    same_length : (n : ℕ) → n < 2 ^ 31 → u32 n ≡ n
    same_length n f = omega arith

-- The call of `send_file` for a file that can be read.
abbrev pub send_opened :
    {S : Type 0}
    → (SourceBlock → TxSession S → Outcome × TxSession S)
    → Bool
    → List ℕ
    → Scheme
    → File
    → TxSession S
    → Outcome × TxSession S
send_opened alc_send thread bytes scheme file =
    send_file alc_send true true thread
      (record { stat = true; opened = some (record { left = bytes; bad = false }) }) scheme file
      no_buffer

-- The state of the session at the start of the loop of `send_file`.
abbrev pub started : {S : Type 0} → Bool → File → TxSession S → TxSession S
started thread file s =
    if thread
    then record s { tx_toi = file.toi }
    else record s { tx_toi = file.toi; obj_sent_bytes = 0; last_print_tx_percent = 0 }

module _ {S : Type 0} (alc_send : SourceBlock → TxSession S → Outcome × TxSession S) (thread : Bool)
    (bytes : List ℕ) (scheme : Scheme) (file : File) (s : TxSession S)
    (plain : (file.encoding ≡ none) ⊎ (file.encoding ≡ some (codes "gzip")))
    (len : transfer_length file ≡ length bytes) (fits : FitsScheme (length bytes) scheme) where
  -- Whatever the sizes of the blocks, the loop goes through them.
  pub send_file-cut :
      (bs : BlockingStruct) × IsPartition
        (ceiling (length bytes) scheme.es_len)
        scheme.max_sb_len
        scheme.es_len
        bs
      × (send_opened alc_send thread bytes scheme file s
          ≡ send_all alc_send false
              (cut_blocks file.toi
                (length bytes)
                scheme
                (block_bytes scheme.es_len bs)
                bs.n
                0
                bytes)
              (started thread file s))
  unfolding send_file
  send_file-cut =
      let l = length bytes in
      let (bs, e, p) = partition l scheme fits in
      (
        bs,
        p,
        rw (len, some_bytes l fits.some_bytes, no_more l fits.bytes, e)
            (send_file_blocks-cut alc_send bs scheme l (block_bytes-short l scheme fits bs p) file
              true thread bs.n 0 bytes 0 (started thread file s) plain (capacity bs p)),
      )
    where
      some_bytes : (n : ℕ) → 0 < n → (n == 0) ≡ false
      some_bytes n f = ground arith

      no_more : (n : ℕ) → n ≤ 0xFFFFFFFFFFFF → ltb 0xFFFFFFFFFFFF n ≡ false
      no_more n f = ground arith

      capacity :
          (bs : BlockingStruct)
          → IsPartition (ceiling (length bytes) scheme.es_len) scheme.max_sb_len scheme.es_len bs
          → (k : ℕ) → block_bytes scheme.es_len bs k ≤ u32 (scheme.es_len * scheme.max_sb_len)
      capacity bs p k = omega (arith, block_bytes-le (length bytes) scheme fits bs p k, fits.buffer)

  -- A file without errors in reading, not encoded or compressed before, of the length that its
  -- description says, with no more source blocks than a symbol has bytes, goes to `alc_send` as
  -- blocks of its TOI, numbered from 0 on, none of which is empty or too long, and which together
  -- are the content of the file, if no file delivery table is to be sent between them; the first
  -- result of `alc_send` below 0 ends the sending, whatever `alc_send` does. The numbers fit the
  -- types of the code.
  pub send_file-whole :
      ceiling (ceiling (length bytes) scheme.es_len) scheme.max_sb_len ≤ scheme.es_len
      → (blocks : List SourceBlock) × AreBlocks file.toi (length bytes) scheme 0 blocks
        × (content blocks ≡ bytes)
        × (send_opened alc_send thread bytes scheme file s
            ≡ send_all alc_send false blocks (started thread file s))
  send_file-whole few =
      let l = length bytes in
      let (bs, p, e) = send_file-cut in
      (
        cut_blocks file.toi l scheme (block_bytes scheme.es_len bs) bs.n 0 bytes,
        blocks-AreBlocks l scheme fits few bs p file.toi bytes refl,
        blocks-content l scheme fits few bs p file.toi bytes refl,
        e,
      )

  -- A file as above whose number of longer source blocks is greater than the length of a symbol in
  -- bytes goes to `alc_send` as blocks that together have fewer bytes than the file, and the
  -- sending succeeds if `alc_send` does.
  pub send_file-truncated :
      scheme.es_len
        < ceiling (length bytes) scheme.es_len
          % ceiling (ceiling (length bytes) scheme.es_len) scheme.max_sb_len
      → (blocks : List SourceBlock) × (length (content blocks) < length bytes)
        × (send_opened alc_send thread bytes scheme file s
            ≡ send_all alc_send false blocks (started thread file s))
  send_file-truncated many =
      let l = length bytes in
      let (bs, p, e) = send_file-cut in
      (
        cut_blocks file.toi l scheme (block_bytes scheme.es_len bs) bs.n 0 bytes,
        omega (
          arith,
          content-cut_blocks-le file.toi l scheme (block_bytes scheme.es_len bs) bs.n 0 bytes,
          room-truncated l scheme fits bs p many,
        ),
        e,
      )
