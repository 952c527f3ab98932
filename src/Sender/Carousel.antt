-- ===== src/Sender/Carousel.antt =====
-- One round of the sender over the file delivery table: `fdtbasedsend` of flutelib/sender.c, in the
-- configuration with zlib and outside of Windows. The writing of an instance, `alc_send`, the
-- compression and the file system are arguments; the log, the printing and the pauses are left out.
use route.Base.{
  ℕ, ◌+◌, ◌-◌, ◌^◌, ◌%◌, Bool, true, false, ◌&&◌, ◌||◌, not, ◌==◌, Option, none, some, List, [],
  ◌∷◌, ◌++◌, ltb, if◌then◌else◌, u32, length,
}
use route.Text.{codes, equal}
use route.Uri.{Uri, parse_uri}
use route.Fdt.{File}
use route.Sender.{
  Scheme, TxSession, s_exiting, SourceBlock, Outcome, sent, failed, exiting, exiting_freed,
  undefined, after, TxFile, send_fdt_instance, send_file, Buffer, no_buffer, freed, holds,
}

-- The arguments of the command line that count, and the two fields of the complete table.
pub record Arguments : Type 0 where
  pub base_dir : List ℕ
  pub file_path : List ℕ
  pub scheme : Scheme
  pub complete_fdt : ℕ
  pub zlib_fdt : Bool
  pub thread : Bool
  pub send_fdt_after_obj : Bool

-- What lives through a round: the session, the parameters of the files, which stay from file to
-- file, the two buffers, and the number of instances since the start of the round.
pub record Carousel (S : Type 0) : Type 0 where
  pub session : TxSession S
  pub file_scheme : Scheme
  pub fdt_inst_buf : Buffer
  pub compr_fdt_inst_buf : Buffer
  pub nb_of_instances_in_last_round : ℕ

-- A description that does not say enough.
unfoldable pub encoded_without_length : Option (List ℕ) → File → Bool
encoded_without_length none file = false
encoded_without_length (some encoding) file =
    (equal encoding (codes "gzip") || equal encoding (codes "pad"))
    && (file.content_len == 0 || file.transfer_len == 0)

abbrev pub is_given : Option (List ℕ) → Bool
is_given none = false
is_given (some text) = true

-- The directory and the path of the URI, and the suffix of a compressed file.
abbrev pub path_of : Arguments → Option (List ℕ) → List ℕ → List ℕ
path_of a encoding path = directory a.base_dir ++ (path ++ suffix encoding)
  where
    directory : List ℕ → List ℕ
    directory [] = []
    directory (c ∷ cs) = (c ∷ cs) ++ codes "/"

    suffix : Option (List ℕ) → List ℕ
    suffix none = []
    suffix (some e) = if equal e (codes "gzip") then codes "~gz" else []

-- The parameters of a file, where those of the file before stay if it does not name its own.
abbrev pub chosen_scheme : Bool → File → Scheme → Scheme
chosen_scheme thread file scheme = named file.fec_enc_id file (
    if not thread && not (file.es_len == 0) && not (file.max_sb_len == 0)
    then record scheme { es_len = file.es_len; max_sb_len = file.max_sb_len }
    else scheme)
  where
    instance_of : Option ℕ → ℕ
    instance_of none = 2 ^ 16 - 1
    instance_of (some i) = i % 2 ^ 16

    named : Option ℕ → File → Scheme → Scheme
    named none file scheme = scheme
    named (some id) file scheme =
        if id == scheme.fec_enc_id
        then scheme
        else record scheme { fec_enc_id = id % 2 ^ 8; fec_inst_id = instance_of file.fec_inst_id }

-- A session put into the state of the round; a buffer that has been freed is freed again by the
-- round, whatever call it was for.
abbrev pub back_in : {S : Type 0} → Carousel S → Outcome × TxSession S → Outcome × Carousel S
back_in c (o, s) = (once o, record c { session = s })
  where
    once : Outcome → Outcome
    once exiting_freed = undefined
    once sent = sent
    once failed = failed
    once exiting = exiting
    once undefined = undefined

-- The next instance of the file delivery table.
abbrev pub next_instance : {S : Type 0} → Carousel S → Carousel S
next_instance c = record c {
  session = record c.session { fdt_instance_id = u32 (c.session.fdt_instance_id + 1) };
  nb_of_instances_in_last_round = c.nb_of_instances_in_last_round + 1;
}

module _ {S : Type 0} (alc_send : SourceBlock → TxSession S → Outcome × TxSession S)
    (create_fdt_instance : List File → TxSession S → Option (List ℕ))
    (buffer_zlib_compress : List ℕ → Option (List ℕ)) (file_system : List ℕ → TxFile)
    (a : Arguments) where
  abbrev pub transmit :
      Option (List ℕ)
      → (List ℕ → Carousel S)
      → (Outcome × Carousel S → Outcome × Carousel S)
      → Carousel S
      → Outcome × Carousel S
  transmit none kept next c = (failed, c)
  transmit (some bytes) kept next c =
      next
        (back_in (kept bytes) (send_fdt_instance alc_send true a.thread bytes a.scheme c.session))

  -- An instance that has been created, compressed if the table is to be.
  abbrev pub transmit_created :
      Option (List ℕ)
      → (Outcome × Carousel S → Outcome × Carousel S)
      → Carousel S
      → Outcome × Carousel S
  transmit_created none next c = (failed, c)
  transmit_created (some bytes) next c =
      let c' = record c { fdt_inst_buf = holds bytes } in
      if a.zlib_fdt
      then transmit (buffer_zlib_compress bytes)
          (λ packed. record c' { compr_fdt_inst_buf = holds packed }) next c'
      else transmit (some bytes) (λ bytes. c') next c'

  -- An instance for `files` is written and sent, and what follows is done with the result.
  unfoldable pub announce :
      List File → (Outcome × Carousel S → Outcome × Carousel S) → Carousel S → Outcome × Carousel S
  unfolding send_fdt_instance
  announce files next c = transmit_created (create_fdt_instance files c.session) next c

  -- The file, and the pointer to the instance that may be sent between its blocks.
  unfoldable pub send_object : List ℕ → File → Carousel S → Outcome × Carousel S
  unfolding send_file
  send_object path file c = back_in c (
      send_file alc_send true true a.thread (file_system path) c.file_scheme file
        (if a.zlib_fdt then c.compr_fdt_inst_buf else c.fdt_inst_buf) c.session)

  -- The end of a file: the buffers are freed, and a result below 0 is returned.
  abbrev pub finish : Outcome × Carousel S → Outcome × Carousel S
  finish (o, c) = if a.complete_fdt == 2 then (o, c) else (
    o,
    record (next_instance c) {
      fdt_inst_buf = freed;
      compr_fdt_inst_buf = if a.zlib_fdt then freed else c.compr_fdt_inst_buf;
    },
  )

  -- The instance behind the file; its result takes the place of that of the file. A failure of the
  -- instance returns at once.
  abbrev pub announced : Outcome × Carousel S → Outcome × Carousel S
  announced r = after r (λ c. finish (sent, c))

  abbrev pub announce_behind : File → Outcome × Carousel S → Outcome × Carousel S
  announce_behind file (undefined, c) = (undefined, c)
  announce_behind file (exiting_freed, c) = (undefined, c)
  announce_behind file (sent, c) = announce (file ∷ []) announced c
  announce_behind file (failed, c) = announce (file ∷ []) announced c
  announce_behind file (exiting, c) = announce (file ∷ []) announced c

  abbrev pub finish_defined : Outcome × Carousel S → Outcome × Carousel S
  finish_defined (undefined, c) = (undefined, c)
  finish_defined (exiting_freed, c) = (undefined, c)
  finish_defined (sent, c) = finish (sent, c)
  finish_defined (failed, c) = finish (failed, c)
  finish_defined (exiting, c) = finish (exiting, c)

  abbrev pub send_both : List ℕ → File → Carousel S → Outcome × Carousel S
  send_both path file c =
      if a.complete_fdt == 2
      then finish_defined (send_object path file c)
      else if a.send_fdt_after_obj
      then announce_behind file (send_object path file c)
      else announce (file ∷ []) (λ r. after r (λ c'. finish_defined (send_object path file c'))) c

  abbrev pub with_uri_path : Option (List ℕ) → File → Carousel S → Outcome × Carousel S
  with_uri_path none file c = (undefined, c)
  with_uri_path (some path) file c =
      if ltb (length (path_of a file.encoding path)) 1024
      then send_both (path_of a file.encoding path) file
          (record c { file_scheme = chosen_scheme a.thread file c.file_scheme })
      else (undefined, c)

  abbrev pub with_path : Option Uri → File → Carousel S → Outcome × Carousel S
  with_path none file c = (undefined, c)
  with_path (some uri) file c = with_uri_path uri.path file c

  abbrev pub located : Option (List ℕ) → File → Carousel S → Outcome × Carousel S
  located none file c = (failed, c)
  located (some location) file c =
      if (file.toi == 0)
        || encoded_without_length file.encoding file
        || (is_given file.encoding && (length a.file_path == 0))
      then (failed, c)
      else with_path (parse_uri location) file c

  -- One file of the table.
  unfoldable pub send_described : File → Carousel S → Outcome × Carousel S
  unfolding encoded_without_length parse_uri send_object announce
  send_described file c = located file.location file (record c { fdt_inst_buf = no_buffer })

  -- The loop over the files.
  unfoldable pub send_described_files : List File → Carousel S → Outcome × Carousel S
  unfolding send_described
  send_described_files [] c = (sent, c)
  send_described_files (file ∷ files) c = after (send_described file c) (send_described_files files)

  -- The complete table at the start of a round.
  abbrev pub send_complete : List File → Carousel S → Outcome × Carousel S
  send_complete files c = announce files cleared c
    where
      counted : Carousel S → Carousel S
      counted c = record (if a.complete_fdt == 2 then c else next_instance c) {
        fdt_inst_buf = no_buffer;
        compr_fdt_inst_buf = if a.zlib_fdt then no_buffer else c.compr_fdt_inst_buf;
      }

      cleared : Outcome × Carousel S → Outcome × Carousel S
      cleared (o, c) = (o, counted c)

  -- `nb` instances have been sent in the round before; `complete`, which is also set, and `expires`
  -- are fields of the table, `curr_time` is the time of the clock since 1900.
  unfoldable pub fdtbasedsend : List File → Bool → ℕ → ℕ → ℕ → TxSession S → Outcome × Carousel S
  unfolding send_described_files
  fdtbasedsend files complete expires curr_time nb s =
      let c : Carousel S = record {
        session = record s { fdt_instance_id = u32 (s.fdt_instance_id + (2 ^ 32 - nb)) };
        file_scheme = a.scheme;
        fdt_inst_buf = no_buffer;
        compr_fdt_inst_buf = no_buffer;
        nb_of_instances_in_last_round = 0;
      } in
      if ltb expires curr_time
      then (exiting, record c { session = record c.session { state = s_exiting } })
      else after (if complete || ltb 0 a.complete_fdt then send_complete files c else (sent, c))
          (send_described_files files)
