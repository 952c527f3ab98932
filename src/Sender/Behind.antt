-- ===== src/Sender/Behind.antt =====
-- `fdtbasedsend` of flutelib/sender.c where the description of a file is sent behind the file.
use route.Base.{
  ℕ, ◌≡◌, ◌≢◌, ◌<◌, arith, lt→ltb, refl, ap, sym, ◌∙◌, Bool, true, false, ◌==◌, ◌&&◌, ◌||◌, ltb,
  length, Bool-cases, Option, none, some, List, [], ◌∷◌, if◌then◌else◌, inl, inr,
}
use route.Uri.{Uri, parse_uri}
use route.Fdt.{File}
use route.Sender.{
  TxSession, SourceBlock, Outcome, sent, failed, exiting, exiting_freed, undefined, after, TxFile,
  send_file, send_fdt_instance, no_buffer, freed,
}
use route.Sender.Carousel.{
  Arguments, Carousel, back_in, transmit, transmit_created, announce, send_object, announced,
  announce_behind, send_both, with_uri_path, with_path, located, path_of, encoded_without_length,
  is_given, send_described, send_described_files, chosen_scheme, send_described_files,
  chosen_scheme,
}

if_true : {A : Type 0} (b : Bool) (x y : A) → b ≡ true → (if b then x else y) ≡ x
if_true b x y e = rw e refl

if_false : {A : Type 0} (b : Bool) (x y : A) → b ≡ false → (if b then x else y) ≡ y
if_false b x y e = rw e refl

module _ {S : Type 0} (alc_send : SourceBlock → TxSession S → Outcome × TxSession S)
    (create_fdt_instance : List File → TxSession S → Option (List ℕ))
    (buffer_zlib_compress : List ℕ → Option (List ℕ)) (file_system : List ℕ → TxFile)
    (a : Arguments) (zlib : a.zlib_fdt ≡ true) (instances : (a.complete_fdt == 2) ≡ false)
    (behind : a.send_fdt_after_obj ≡ true) where
  abbrev both : List ℕ → File → Carousel S → Outcome × Carousel S
  both = send_both alc_send create_fdt_instance buffer_zlib_compress file_system a

  announced-freed :
      (r : Outcome × Carousel S) (c' : Carousel S)
      → announced alc_send create_fdt_instance buffer_zlib_compress file_system a r ≡ (sent, c')
      → c'.compr_fdt_inst_buf ≡ freed
  announced-freed (sent, c) c' e =
      sym (ap (λ (o : Outcome × Carousel S). o.1.compr_fdt_inst_buf) e) ∙ rw (instances, zlib) refl
  announced-freed (failed, c) c' e = absurd (cc)
  announced-freed (exiting, c) c' e = absurd (cc)
  announced-freed (exiting_freed, c) c' e = absurd (cc)
  announced-freed (undefined, c) c' e = absurd (cc)

  transmit-freed :
      (packed : Option (List ℕ)) (kept : List ℕ → Carousel S) (c c' : Carousel S)
      → transmit alc_send create_fdt_instance buffer_zlib_compress file_system a packed kept
          (announced alc_send create_fdt_instance buffer_zlib_compress file_system a)
          c
        ≡ (sent, c')
      → c'.compr_fdt_inst_buf ≡ freed
  transmit-freed none kept c c' e = absurd (cc)
  transmit-freed (some bytes) kept c c' e =
      announced-freed
        (back_in (kept bytes) (send_fdt_instance alc_send true a.thread bytes a.scheme c.session))
        c' e

  created-freed :
      (created : Option (List ℕ)) (c c' : Carousel S)
      → transmit_created alc_send create_fdt_instance buffer_zlib_compress file_system a created
          (announced alc_send create_fdt_instance buffer_zlib_compress file_system a)
          c
        ≡ (sent, c')
      → c'.compr_fdt_inst_buf ≡ freed
  created-freed none c c' e = absurd (cc)
  created-freed (some bytes) c c' e =
      transmit-freed (buffer_zlib_compress bytes) _ _ c' (sym (if_true a.zlib_fdt _ _ zlib) ∙ e)

  announce-freed :
      (file : File) (c c' : Carousel S)
      → announce alc_send create_fdt_instance buffer_zlib_compress file_system a
          (file ∷ [])
          (announced alc_send create_fdt_instance buffer_zlib_compress file_system a)
          c
        ≡ (sent, c')
      → c'.compr_fdt_inst_buf ≡ freed
  unfolding announce
  announce-freed file c c' e = created-freed (create_fdt_instance (file ∷ []) c.session) c c' e

  behind-freed :
      (file : File) (o : Outcome × Carousel S) (c' : Carousel S)
      → announce_behind alc_send create_fdt_instance buffer_zlib_compress file_system a file o
        ≡ (sent, c')
      → c'.compr_fdt_inst_buf ≡ freed
  behind-freed file (sent, c) c' e = announce-freed file c c' e
  behind-freed file (failed, c) c' e = announce-freed file c c' e
  behind-freed file (exiting, c) c' e = announce-freed file c c' e
  behind-freed file (exiting_freed, c) c' e = absurd (cc)
  behind-freed file (undefined, c) c' e = absurd (cc)

  both-behind :
      (path : List ℕ) (file : File) (c : Carousel S)
      → both path file c
        ≡ announce_behind alc_send create_fdt_instance buffer_zlib_compress file_system a file (
            send_object alc_send create_fdt_instance buffer_zlib_compress file_system a path file c)
  both-behind path file c = rw (instances, behind) refl

  undefined≢sent : (c c' : Carousel S) → ◌≢◌ {A = Outcome × Carousel S} (undefined, c) (sent, c')
  undefined≢sent c c' e = absurd (cc)

  -- A file that is sent has come to the sending, with the buffer as it was.
  abbrev Reached : File → Carousel S → Carousel S → Type 0
  Reached file c c' =
      (path : List ℕ) × (d : Carousel S) × (d.compr_fdt_inst_buf ≡ c.compr_fdt_inst_buf)
      × (both path file d ≡ (sent, c'))

  uri_path-Reached :
      (path : Option (List ℕ)) (file : File) (c c' : Carousel S)
      → with_uri_path alc_send create_fdt_instance buffer_zlib_compress file_system a path file c
        ≡ (sent, c')
      → Reached file c c'
  uri_path-Reached none file c c' e = absurd (cc)
  uri_path-Reached (some path) file c c' e =
      elim (Bool-cases (ltb (length (path_of a file.encoding path)) 1024)) [
        | inl t ↦ (path_of a file.encoding path, _, refl, sym (if_true _ _ _ t) ∙ e)
        | inr t ↦ absurd (undefined≢sent c c' (sym (if_false _ _ _ t) ∙ e))
      ]

  path-Reached :
      (uri : Option Uri) (file : File) (c c' : Carousel S)
      → with_path alc_send create_fdt_instance buffer_zlib_compress file_system a uri file c
        ≡ (sent, c')
      → Reached file c c'
  path-Reached none file c c' e = absurd (cc)
  path-Reached (some uri) file c c' e = uri_path-Reached uri.path file c c' e

  location-Reached :
      (location : Option (List ℕ)) (file : File) (c c' : Carousel S)
      → located alc_send create_fdt_instance buffer_zlib_compress file_system a location file c
        ≡ (sent, c')
      → Reached file c c'
  location-Reached none file c c' e = absurd (cc)
  location-Reached (some location) file c c' e =
      elim (Bool-cases (
        (file.toi == 0)
        || encoded_without_length file.encoding file
        || (is_given file.encoding && (length a.file_path == 0)))) [
          | inl t ↦ absurd (failed≢sent c c' (sym (if_true _ _ _ t) ∙ e))
          | inr t ↦ path-Reached (parse_uri location) file c c' (sym (if_false _ _ _ t) ∙ e)
        ]
    where
      failed≢sent : (c c' : Carousel S) → ◌≢◌ {A = Outcome × Carousel S} (failed, c) (sent, c')
      failed≢sent c c' e = absurd (cc)

  described-Reached :
      (file : File) (c c' : Carousel S)
      → send_described alc_send create_fdt_instance buffer_zlib_compress file_system a file c
        ≡ (sent, c')
      → Reached file c c'
  unfolding send_described
  described-Reached file c c' e =
      location-Reached file.location file (record c { fdt_inst_buf = no_buffer }) c' e

  described-freed :
      (file : File) (c c' : Carousel S)
      → send_described alc_send create_fdt_instance buffer_zlib_compress file_system a file c
        ≡ (sent, c')
      → c'.compr_fdt_inst_buf ≡ freed
  described-freed file c c' e =
      let (path, d, same, both_sent) = described-Reached file c c' e in
      behind-freed file
        (send_object alc_send create_fdt_instance buffer_zlib_compress file_system a path file d) c'
        (sym (both-behind path file d) ∙ both_sent)

  described-located :
      (g : File) (c : Carousel S) (location path : List ℕ) (uri : Uri)
      → c.compr_fdt_inst_buf ≡ freed
      → g.location ≡ some location
      → g.toi ≢ 0
      → encoded_without_length g.encoding g ≡ false
      → (is_given g.encoding && (length a.file_path == 0)) ≡ false
      → parse_uri location ≡ some uri
      → uri.path ≡ some path
      → length (path_of a g.encoding path) < 1024
      → send_described alc_send create_fdt_instance buffer_zlib_compress file_system a g c ≡ (
          let d = record c {
            fdt_inst_buf = no_buffer;
            file_scheme = chosen_scheme a.thread g c.file_scheme;
          } in
          announce_behind alc_send create_fdt_instance buffer_zlib_compress file_system a g (
            back_in d (
              send_file alc_send true true a.thread
                (file_system (path_of a g.encoding path))
                d.file_scheme
                g
                freed
                d.session)))
  unfolding send_described send_object
  described-located g c location path uri f at toi enough given u p short =
      let c₀ = record c { fdt_inst_buf = no_buffer } in
      let d = record c₀ { file_scheme = chosen_scheme a.thread g c.file_scheme } in
      ap (λ l. located alc_send create_fdt_instance buffer_zlib_compress file_system a l g c₀) at
      ∙ if_false _ _ _ accepted
      ∙ ap (λ q. with_path alc_send create_fdt_instance buffer_zlib_compress file_system a q g c₀) u
      ∙ ap
          (λ q.
            with_uri_path alc_send create_fdt_instance buffer_zlib_compress file_system a q g c₀)
          p
      ∙ if_true _ _ _ (lt→ltb (length (path_of a g.encoding path)) 1024 short)
      ∙ both-behind (path_of a g.encoding path) g d
      ∙ rw (zlib, f) refl
    where
      accepted :
          ((g.toi == 0)
            || encoded_without_length g.encoding g
            || (is_given g.encoding && (length a.file_path == 0)))
          ≡ false
      accepted =
          let some_toi : (g.toi == 0) ≡ false = ground arith in rw (some_toi, enough, given) refl

  -- With zlib for the file delivery table, and the descriptions sent behind the files, a file that
  -- has been sent with success leaves the freed buffer of its description to the next file of the
  -- table, if that one is described well enough: `send_file` gets the pointer to it, and the
  -- description of the next file follows whatever the result. The path fits its buffer, and the
  -- complete table is not the only instance to be sent.
  pub send_described_files-freed :
      (f g : File) (files : List File) (c c' : Carousel S) (location path : List ℕ) (uri : Uri)
      → send_described alc_send create_fdt_instance buffer_zlib_compress file_system a f c
        ≡ (sent, c')
      → g.location ≡ some location
      → g.toi ≢ 0
      → encoded_without_length g.encoding g ≡ false
      → (is_given g.encoding && (length a.file_path == 0)) ≡ false
      → parse_uri location ≡ some uri
      → uri.path ≡ some path
      → length (path_of a g.encoding path) < 1024
      → send_described_files alc_send create_fdt_instance buffer_zlib_compress file_system a
          (f ∷ g ∷ files)
          c
        ≡ (let d = record c' {
          fdt_inst_buf = no_buffer;
          file_scheme = chosen_scheme a.thread g c'.file_scheme;
        } in
            after
              (announce_behind alc_send create_fdt_instance buffer_zlib_compress file_system a g (
                back_in d (
                  send_file alc_send true true a.thread
                    (file_system (path_of a g.encoding path))
                    d.file_scheme
                    g
                    freed
                    d.session)))
              (send_described_files alc_send create_fdt_instance buffer_zlib_compress file_system a
                files))
  unfolding send_described_files
  send_described_files-freed f g files c c' location path uri e at toi enough given u p short =
      ap
        (λ o. after o (
          send_described_files alc_send create_fdt_instance buffer_zlib_compress file_system a
            (g ∷ files)))
        e
      ∙ ap
          (λ o. after o (
            send_described_files alc_send create_fdt_instance buffer_zlib_compress file_system a
              files))
          (described-located g c' location path uri (described-freed f c c' e) at toi enough given u
            p short)
