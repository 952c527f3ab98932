-- ===== src/Session/Received.antt =====
-- The instances of the file delivery table that a session has received: `set_received_instance` of
-- alclib/alc_session.c, and what it makes of the packets that `parse_packet` tests afterwards.
use route.Base.{ℕ, ◌≡◌, arith, ◌&&◌, ◌||◌, List, [], ◌∷◌, ◌==◌, if◌then◌else◌, ◌>>>◌, ◌≢◌}
use route.Packet.Status.{stop, dup_packet}
use route.Packet.Header.{LctHdr}
use route.Packet.Address.{Address}
use route.Packet.Extension.{Ext}
use route.Packet.Parse.{Session, is_received_instance, check_end}

-- The list after the call, which succeeds: a new instance goes to its end.
unfoldable pub set_received_instance : List ℕ → ℕ → List ℕ
set_received_instance [] fdt_instance_id = fdt_instance_id ∷ []
set_received_instance (x ∷ xs) fdt_instance_id =
    if x == fdt_instance_id then x ∷ xs else x ∷ set_received_instance xs fdt_instance_id

received-set :
    (xs : List ℕ) (n m : ℕ)
    → is_received_instance (set_received_instance xs n) m ≡ (n == m || is_received_instance xs m)
unfolding set_received_instance is_received_instance
received-set [] n m = ground arith
received-set (x ∷ xs) n m = ground (arith, received-set xs n m)

-- The session that has received one more instance.
abbrev pub receiving : Session → ℕ → Session
receiving s n = record s { rx_fdt_instance_list = set_received_instance s.rx_fdt_instance_list n }

-- Once an instance is set as received, a packet of the object 0 that carries it, whose header has
-- the length it claims and is not the whole packet, is a duplicate; every other packet meets the
-- tests behind the extensions with the same result as before.
pub check_end-receiving :
    (len : ℕ) (h : LctHdr) (s : Session) (a : Address) (x : Ext) (n : ℕ)
    → x.hdrlen >>> 2 ≡ h.hdr_len
    → x.hdrlen ≢ len
    → check_end len h (receiving s n) a x
      ≡ (if a.toi == 0 && n == x.fdt_instance_id then stop dup_packet else check_end len h s a x)
unfolding check_end
check_end-receiving len h s a x n e ne =
    ground (arith, received-set s.rx_fdt_instance_list n x.fdt_instance_id)
