-- ===== src/Session/Tests.antt =====
-- The refinement on a concrete sequence of calls, and an instance received twice.
use route.Base.{ℕ, ◌≡◌, refl, arith, some, List, [], ◌∷◌, ◌==◌, ◌&&◌, if◌then◌else◌}
use route.Packet.Status.{stop, dup_packet}
use route.Packet.Header.{LctHdr}
use route.Packet.Address.{Address}
use route.Packet.Extension.{Ext}
use route.Packet.Parse.{check_end, no_ext}
use route.Session.Received.{receiving, check_end-receiving}
use route.Session.{
  Oti, get_wanted_object, set_wanted_object, update_wanted_object, remove_wanted_object,
}
use route.Session.Refinement.{
  Call, sets, updates, removes, run, run_map, nothing, oti_of, run-refines-run_map,
}

abbrev oti : ℕ → Oti
oti len = record {
  transfer_len = len;
  es_len = 1400;
  max_sb_len = 64;
  fec_inst_id = 0;
  fec_enc_id = 0;
  max_nb_of_es = 64;
  content_enc_algo = 0;
  finite_field = 0;
  nb_of_es_per_group = 0;
}

-- The second set of object 3 changes nothing, the update does.
abbrev calls : List Call
calls = sets 3 (oti 10) ∷ sets 3 (oti 20) ∷ sets 4 (oti 30) ∷ updates 3 (oti 40) ∷ removes 4 ∷ []

finds_updated : oti_of (get_wanted_object (run calls []) 3) ≡ some (oti 40)
unfolding get_wanted_object set_wanted_object update_wanted_object remove_wanted_object
finds_updated = refl

run-refines-run_map_example : oti_of (get_wanted_object (run calls []) 3) ≡ run_map calls nothing 3
run-refines-run_map_example = run-refines-run_map calls 3

abbrev header : LctHdr
header = record {
  codepoint = 0;
  hdr_len = 5;
  flag_b = 0;
  flag_a = 0;
  reserved = 0;
  flag_h = 0;
  flag_o = 0;
  flag_s = 1;
  psi = 2;
  flag_c = 0;
  version = 1;
  cci = 0;
}

abbrev instance_7 : Ext
instance_7 = record (no_ext 20 0) { fdt_instance_id = 7 }

abbrev object_0 : Address
object_0 = record { tsi = 5; toi = 0; hdrlen = 16 }

-- The second of two receptions of instance 7.
check_end-receiving_example :
    check_end 24 header
      (receiving (record { tsi = 5; rx_fdt_instance_list = 6 ∷ [] }) 7)
      object_0
      instance_7
    ≡ (if object_0.toi == 0 && 7 == instance_7.fdt_instance_id
        then stop dup_packet
        else check_end 24 header
            (record { tsi = 5; rx_fdt_instance_list = 6 ∷ [] })
            object_0
            instance_7)
check_end-receiving_example =
    check_end-receiving 24 header (record { tsi = 5; rx_fdt_instance_list = 6 ∷ [] }) object_0
      instance_7 7 refl (λ e. omega arith)
