-- ===== src/Packet/Analyze/Accepted.antt =====
-- What `analyze_packet` of alclib/alc_rx.c guarantees of a packet whose object it collects.
use route.Base.{
  ℕ, ◌+◌, ◌/◌, ◌≤◌, ◌≡◌, ◌≢◌, ◌⊎◌, ◌∙◌, inl, inr, none, refl, ap, arith, Bool, true, false, Option,
  not, ◌==◌, leb, ◌&&◌, ◌>>>◌, if◌then◌else◌,
}
use mathlib.Core.Path.{subst}
use route.Wire.{Buffer}
use route.Session.{WantedObj, get_wanted_object}
use route.Packet.Status.{Result, stop, hdr_error, empty_packet, dup_packet, ok, bind_ok, stop_if_ok}
use route.Packet.Header.{LctHdr}
use route.Packet.Address.{Address}
use route.Packet.Parse.{is_received_instance}
use route.Packet.Parse.Laws.{read_address-tsi}
use route.Packet.Analyze.{
  Channel, Next, collect, extensions, swap_long, analyzed_hdr, first_tests, check_cci, packet_tsi,
  analyze_address, find_wanted,
}
use route.Packet.Analyze.Extensions.{Seen}
use route.Packet.Analyze.Source.{Carried, read_carried, read_source}
use route.Packet.Analyze.Header.{
  Analyzed, analyze_header, after_extensions, see_header_extensions, closes_object, continue,
  jumped, is_fdt,
}

-- What a collected packet has. The extensions are jumped over for an object that is not wanted, on
-- its own channel, where no FDT instance is waited for and the codepoint is 7 or more.
pub record IsCollected (h : LctHdr) (len : ℕ) (ch : Channel) (r : Analyzed) : Type 0 where
  pub version_one : h.version ≡ 1
  pub a_flow : (h.psi ≡ 2) ⊎ (h.psi ≡ 0)
  pub own_session : r.tsi ≡ ch.tsi
  pub payload :
      ((r.carried.hdrlen ≤ len) × (r.carried.hdrlen / 4 ≡ h.hdr_len + 1))
      ⊎ (ch.waiting_fdt_instance ≡ false)
        × (7 ≤ h.codepoint)
        × (r.toi ≢ 0)
        × (r.tsi ≡ ch.ch_id)
        × (get_wanted_object ch.wanted_obj_list r.toi ≡ none)

first_tests-passed :
    (len : ℕ) (h : LctHdr)
    → first_tests len h ≡ ok tt
    → (h.version ≡ 1) × ((h.psi ≡ 2) ⊎ (h.psi ≡ 0))
unfolding first_tests
first_tests-passed len h e = ground arith

analyze_address-tsi :
    (h : LctHdr) (m : Buffer) (tsi : ℕ) {a : Address} → analyze_address h m tsi ≡ ok a → a.tsi ≡ tsi
unfolding analyze_address packet_tsi
analyze_address-tsi h m tsi {a} e = ground (arith, read_address-tsi h m tsi {a = a})

read_carried-within :
    (psi len : ℕ) (w : Option WantedObj) (c : Bool) (x : Seen) (m : Buffer) {r : Carried}
    → read_carried psi len w c x m ≡ ok r
    → (r.hdrlen ≤ len) × (r.hdrlen ≡ x.hdrlen + 4)
unfolding read_carried read_source
read_carried-within psi len w c x m e = ground arith

after_extensions-within :
    (len : ℕ) (ch : Channel) (h : LctHdr) (m : Buffer) (a : Address) (x : Seen) {r : Analyzed}
    → after_extensions len ch h m a x ≡ ok r
    → (r.tsi ≡ a.tsi) × (r.carried.hdrlen ≤ len) × (r.carried.hdrlen / 4 ≡ h.hdr_len + 1)
unfolding after_extensions
after_extensions-within len ch h m a x {r} e =
    let carried =
      read_carried h.psi len (get_wanted_object ch.wanted_obj_list a.toi) (closes_object h) x m in
    let fdt = is_fdt ch a in
    let received = is_received_instance ch.rx_fdt_instance_list x.fdt_instance_id in
    let (words, e₁) = stop_if_ok (not (x.hdrlen >>> 2 == h.hdr_len)) hdr_error _ e in
    let (some_payload, e₂) = stop_if_ok (x.hdrlen == len) empty_packet _ e₁ in
    let (new, e₃) = stop_if_ok (fdt && received && leb 7 h.codepoint) dup_packet _ e₂ in
    let (c, e₄, e₅) = bind_ok carried _ e₃ in
    let within = read_carried-within h.psi len _ (closes_object h) x m e₄ in
    let (tsi, same) = made c e₅ in (tsi, omega arith, ground arith)
  where
    made :
        (c : Carried)
        → ok (record {
          toi = a.toi;
          tsi = a.tsi;
          carried = c;
          seen = x;
          close_object = closes_object h;
          waiting_fdt_instance = if is_fdt ch a then true else ch.waiting_fdt_instance;
        })
          ≡ ok r
        → (r.tsi ≡ a.tsi) × (r.carried.hdrlen ≡ c.hdrlen)
    made c e = ground arith

-- Which packets jump.
find_wanted-collect :
    (ch : Channel) (h : LctHdr) (a : Address)
    → find_wanted ch h a ≡ ok collect
    → (ch.waiting_fdt_instance ≡ false)
      × (7 ≤ h.codepoint)
      × (a.toi ≢ 0)
      × (a.tsi ≡ ch.ch_id)
      × (get_wanted_object ch.wanted_obj_list a.toi ≡ none)
unfolding find_wanted
find_wanted-collect ch h a e = ground arith

abbrev collected : Analyzed → Result Analyzed → Analyzed
collected r (ok r') = r'
collected r (stop s) = r

continue-IsCollected :
    (fuel len : ℕ) (ch : Channel) (h : LctHdr) (m : Buffer) (a : Address) (next : Next)
    {r : Analyzed}
    → find_wanted ch h a ≡ ok next
    → continue fuel len ch h m a next ≡ ok r
    → (r.tsi ≡ a.tsi)
      × (((r.carried.hdrlen ≤ len) × (r.carried.hdrlen / 4 ≡ h.hdr_len + 1))
          ⊎ (ch.waiting_fdt_instance ≡ false)
            × (7 ≤ h.codepoint)
            × (r.toi ≢ 0)
            × (r.tsi ≡ ch.ch_id)
            × (get_wanted_object ch.wanted_obj_list r.toi ≡ none))
continue-IsCollected fuel len ch h m a collect found e =
    let (quiet, late, some_toi, own, unwanted) = find_wanted-collect ch h a found in
    subst
      (λ (r : Analyzed).
        (r.tsi ≡ a.tsi)
        × (((r.carried.hdrlen ≤ len) × (r.carried.hdrlen / 4 ≡ h.hdr_len + 1))
            ⊎ (ch.waiting_fdt_instance ≡ false)
              × (7 ≤ h.codepoint)
              × (r.toi ≢ 0)
              × (r.tsi ≡ ch.ch_id)
              × (get_wanted_object ch.wanted_obj_list r.toi ≡ none)))
      (ap (collected (jumped ch h a)) e) (refl, inr (quiet, late, some_toi, own, unwanted))
continue-IsCollected fuel len ch h m a (extensions k) found e =
    let (x, e₁, e₂) = bind_ok (see_header_extensions fuel len h m k a.hdrlen) _ e in
    let (tsi, within, words) = after_extensions-within len ch h m a x e₂ in
    (tsi, inl (within, words))

-- A packet whose object `analyze_packet` goes on to collect, on whatever fuel, is of ALC version 1,
-- of a source or a repair flow and of the session, and its headers, of the length that it claims,
-- lie within the packet; the last is said of each packet but those of an object that is not the
-- FDT, not wanted, and has the number of the channel for its TSI, where the channel waits for no FDT
-- instance and the codepoint is 7 or more: of these the rest of the header is jumped over.
pub analyze_header-IsCollected :
    (fuel : ℕ) (lp64 rlc : Bool) (m : Buffer) (len : ℕ) (ch : Channel) {r : Analyzed}
    → analyze_header fuel lp64 rlc m len ch ≡ ok r
    → IsCollected (analyzed_hdr lp64 m) len ch r
unfolding analyze_header
analyze_header-IsCollected fuel lp64 rlc m len ch e =
    let h = analyzed_hdr lp64 m in
    let m' = swap_long lp64 m in
    let (u, e₁, e₂) = bind_ok (first_tests len h) _ e in
    let (u', e₃, e₄) = bind_ok (check_cci rlc ch h) _ e₂ in
    let (a, e₅, e₆) = bind_ok (analyze_address h m' ch.tsi) _ e₄ in
    let (same, e₇) = stop_if_ok _ _ _ e₆ in
    let (next, e₈, e₉) = bind_ok (find_wanted ch h a) _ e₇ in
    let (version, flow) = first_tests-passed len h e₁ in
    let (tsi, payload) = continue-IsCollected fuel len ch h m' a next e₈ e₉ in
    record {
      version_one = version;
      a_flow = flow;
      own_session = tsi ∙ analyze_address-tsi h m' ch.tsi e₅;
      payload = payload;
    }
