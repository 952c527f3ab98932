-- ===== src/Packet/Parse/Laws.antt =====
-- What `parse_packet` guarantees of a packet that it accepts.
use route.Base.{ℕ, ◌+◌, ◌*◌, ◌/◌, ◌≤◌, ◌<◌, ◌≡◌, ◌≢◌, ◌⊎◌, ◌∙◌, arith, true, not}
use route.Wire.{Buffer, swap_short}
use route.Packet.Status.{ok, bind_ok, stop_if_ok}
use route.Packet.Header.{LctHdr, parsed_hdr, check_hdr}
use route.Packet.Address.{Address, read_address}
use route.Packet.Extension.{Ext, rs_fec_enc_id}
use route.Packet.PayloadId.{PayloadId, read_payload_id}
use route.Packet.Parse.{
  Session, Parsed, parse_packet, finish, complete, check_end, read_header_extensions, supported,
}

-- The identifiers that are accepted are the session's.
pub read_address-tsi :
    (h : LctHdr) (m : Buffer) (tsi : ℕ) {a : Address} → read_address h m tsi ≡ ok a → a.tsi ≡ tsi
unfolding read_address
read_address-tsi h m tsi e = ground arith

-- The identifier of a scheme that is not Reed-Solomon lies within the packet.
read_payload_id-within :
    (fec field len : ℕ) (m : Buffer) (o : ℕ) {p : PayloadId}
    → fec ≢ rs_fec_enc_id
    → supported fec ≡ true
    → read_payload_id fec field len m o ≡ ok p
    → p.hdrlen ≤ len
unfolding read_payload_id
read_payload_id-within fec field len m o n s e = ground arith

-- What an accepted packet has.
pub record IsAccepted (m : Buffer) (len : ℕ) (s : Session) (p : Parsed) : Type 0 where
  pub version_one : (parsed_hdr m).version ≡ 1
  pub source_flow : (parsed_hdr m).psi ≡ 2
  pub own_session : p.tsi ≡ s.tsi
  pub scheme : supported (parsed_hdr m).codepoint ≡ true
  pub header_length :
      (4 * (parsed_hdr m).hdr_len ≤ p.hdrlen) × (p.hdrlen ≤ 4 * (parsed_hdr m).hdr_len + 11)
  pub payload : ((parsed_hdr m).codepoint ≡ rs_fec_enc_id) ⊎ (p.hdrlen < len)
  pub not_empty : p.hdrlen ≢ len

module _ (len : ℕ) (h : LctHdr) (s : Session) (a : Address) where
  complete-Parsed :
      (q : PayloadId) {p : Parsed}
      → complete len a q ≡ ok p
      → (p.tsi ≡ a.tsi) × (p.hdrlen ≡ q.hdrlen) × (q.hdrlen ≢ len)
  unfolding complete
  complete-Parsed q e = ground arith

  check_end-length : (x : Ext) → check_end len h s a x ≡ ok tt → x.hdrlen / 4 ≡ h.hdr_len
  unfolding check_end
  check_end-length x e = ground arith

read_payload_id-size :
    (fec field len : ℕ) (m : Buffer) (o : ℕ) {q : PayloadId}
    → read_payload_id fec field len m o ≡ ok q
    → (o ≤ q.hdrlen) × (q.hdrlen ≤ o + 8)
unfolding read_payload_id
read_payload_id-size fec field len m o e = ground arith

finish-Parsed :
    (len : ℕ) (h : LctHdr) (m : Buffer) (s : Session) (a : Address) (x : Ext) {p : Parsed}
    → supported h.codepoint ≡ true
    → finish len h m s a x ≡ ok p
    → (p.tsi ≡ a.tsi)
      × (4 * h.hdr_len ≤ p.hdrlen)
      × (p.hdrlen ≤ 4 * h.hdr_len + 11)
      × (h.codepoint ≢ rs_fec_enc_id → p.hdrlen < len)
      × (p.hdrlen ≢ len)
unfolding finish
finish-Parsed len h m s a x {p} sup e =
    let (u, e₁, e₂) = bind_ok (check_end len h s a x) _ e in
    let (q, e₃, e₄) = bind_ok (read_payload_id h.codepoint x.finite_field len m x.hdrlen) _ e₂ in
    let (tsi, same, rest) = complete-Parsed len h s a q e₄ in
    let words = check_end-length len h s a x e₁ in
    let size = read_payload_id-size h.codepoint x.finite_field len m x.hdrlen e₃ in
    (
      tsi,
      omega arith,
      omega arith,
      λ n. omega (arith, read_payload_id-within h.codepoint x.finite_field len m x.hdrlen n sup e₃),
      omega arith,
    )

check_hdr-tests : (len : ℕ) (h : LctHdr) → check_hdr len h ≡ ok tt → (h.version ≡ 1) × (h.psi ≡ 2)
unfolding check_hdr
check_hdr-tests len h e = ground arith

-- A packet that `parse_packet` accepts, on whatever fuel, is of ALC version 1 and the source flow,
-- belongs to the session, has a supported scheme and the header length that it claims, and its
-- headers leave a payload, unless the scheme is Reed-Solomon.
pub parse_packet-IsAccepted :
    (fuel : ℕ) (m : Buffer) (len : ℕ) (s : Session) {p : Parsed}
    → parse_packet fuel m len s ≡ ok p
    → IsAccepted m len s p
unfolding parse_packet
parse_packet-IsAccepted fuel m len s e =
    let h = parsed_hdr m in
    let m' = swap_short m in
    let (u, e₁, e₂) = bind_ok (check_hdr len h) _ e in
    let (a, e₃, e₄) = bind_ok (read_address h m' s.tsi) _ e₂ in
    let (sup, e₅) = stop_if_ok (not (supported h.codepoint)) _ _ e₄ in
    let (x, e₆, e₇) = bind_ok (read_header_extensions fuel h m' a.hdrlen) _ e₅ in
    let good : supported h.codepoint ≡ true = ground arith in
    let (tsi, low, high, payload, some_payload) = finish-Parsed len h m' s a x good e₇ in
    let tests = check_hdr-tests len h e₁ in
    record {
      version_one = tests.0;
      source_flow = tests.1;
      own_session = tsi ∙ read_address-tsi h m' s.tsi e₃;
      scheme = good;
      header_length = (low, high);
      payload = grind arith;
      not_empty = some_payload;
    }
