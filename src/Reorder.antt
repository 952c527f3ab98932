-- ===== src/Reorder.antt =====
-- The buffer of packets that alclib/alc_rx.c keeps for a forwarding server: a linked list with its
-- first cell `packetBufferLinkedListRoot` and its last `packetBufferLinkedHead`. Cells live in a
-- heap, since `oneBefore` may stay behind in it. The fields `tsi` and `sbn` of a packet, which
-- `newWriteToBuffer` leaves as `malloc` gave them, and the lock are left out.
pub mod Chain
pub mod Write
pub mod Search
pub mod Read
pub mod Lost
mod Tests
use route.Base.{
  ℕ, zero, suc, ◌+◌, ◌-◌, ◌%◌, ◌^◌, Bool, true, false, ◌&&◌, ◌||◌, not, Option, none, some, List,
  [], ltb, ◌==◌, if◌then◌else◌,
}

-- `packetBuffer_t`; an empty one has the length 0.
pub record PacketBuffer : Type 0 where
  pub toi : ℕ
  pub esi : ℕ
  pub length : ℕ
  pub buffer : List ℕ

-- `PacketBufferLinkedListType_t`
pub record Cell : Type 0 where
  pub pb : PacketBuffer
  pub nextpb : Option ℕ

-- The cell behind an address; `none` has not been allocated, or has been freed.
abbrev pub Heap : Type 0
Heap = ℕ → Option Cell

-- The variables of the file.
pub record Store : Type 0 where
  pub heap : Heap
  pub root : Option ℕ
  pub head : Option ℕ
  pub last_read_toi : ℕ
  pub last_read_esi : ℕ
  pub fullness : ℕ

-- A call returns, reads what is not allocated, calls `exit`, or has used up the fuel of a loop.
pub data Run {ℓ} (A : Type ℓ) : Type ℓ where
  done : A → Run A
  crashed : Run A
  exited : Run A
  looping : Run A

infixl 5 ◌>>=◌
abbrev pub ◌>>=◌ {ℓ κ} : {A : Type ℓ} {B : Type κ} → Run A → (A → Run B) → Run B
done a >>= f = f a
crashed >>= f = crashed
exited >>= f = exited
looping >>= f = looping

abbrev pub put : Heap → ℕ → Option Cell → Heap
put h a c p = if p == a then c else h p

abbrev pub load : Heap → ℕ → Run Cell
load h a = elim (h a) [ none ↦ crashed | some c ↦ done c ]

abbrev pub is_at : Option ℕ → ℕ → Bool
is_at none a = false
is_at (some p) a = p == a

abbrev circular_buffer_length : ℕ
circular_buffer_length = 1000000

abbrev cell : PacketBuffer → Option ℕ → Cell
cell pb nextpb = record { pb = pb; nextpb = nextpb }

-- `getEmptyBufferSlot`, with what its caller then writes into the slot; `a` is what `malloc`
-- returns.
unfoldable pub empty_slot : ℕ → PacketBuffer → Store → Run Store
empty_slot a pb st = elim st.head [
  | none ↦ elim st.root [
    | none ↦
        done
          (record st { heap = put st.heap a (some (cell pb none)); root = some a; head = some a })
    | some r ↦ exited
  ]
  | some last ↦ load st.heap last >>= λ c. done (record st {
    heap = put (put st.heap a (some (cell pb none))) last (some (cell c.pb (some a)));
    head = some a;
  })
]

-- The result, 0 or -1 (`false`), and the variables after the call.
unfoldable pub new_write_to_buffer : ℕ → PacketBuffer → Store → Run (Bool × Store)
unfolding empty_slot
new_write_to_buffer a pb st =
    if st.fullness == circular_buffer_length - 1
    then done (false, st)
    else empty_slot a pb st >>= λ st'. done (true, record st' { fullness = st'.fullness + 1 })

-- What the first loop leaves: `oneBefore`, `smallestTOI` and `esiStart`.
pub record Scan : Type 0 where
  pub one_before : Option ℕ
  pub smallest : ℕ
  pub start : Option ℕ

abbrev pub smaller : ℕ → PacketBuffer → Scan → Scan
smaller a pb s = if ltb pb.toi s.smallest then record s { smallest = pb.toi; start = some a } else s

-- The first loop, from `current` on, on fuel.
unfoldable pub scan_toi : ℕ → Heap → ℕ → Scan → Run Scan
scan_toi zero h current s = looping
scan_toi (suc fuel) h current s = load h current >>= λ c. elim c.nextpb [
  | none ↦ done (smaller current c.pb s)
  | some next ↦ scan_toi fuel h next (record (smaller current c.pb s) { one_before = some current })
]

-- The second loop: the cell found, and the one before it.
unfoldable pub scan_esi : ℕ → Heap → ℕ → ℕ → ℕ → Option ℕ → Run (Option (ℕ × Option ℕ))
scan_esi zero h toi esi current one_before = looping
scan_esi (suc fuel) h toi esi current one_before = load h current >>= λ c.
    if (c.pb.toi == toi) && (c.pb.esi == esi)
    then done (some (current, one_before))
    else elim c.nextpb [
      | none ↦ done none
      | some next ↦ scan_esi fuel h toi esi next (some current)
    ]

-- `oneBefore->nextpb = nextpb`
abbrev pub link : Heap → ℕ → Option ℕ → Run Heap
link h before nextpb = load h before >>= λ c. done (put h before (some (cell c.pb nextpb)))

-- The cell goes out of the list; it is freed afterwards.
unfoldable pub unlink : ℕ → Option ℕ → Cell → Store → Run Store
unlink current one_before c st =
    if not (is_at st.root current) && not (is_at st.head current)
    then elim one_before [
      | none ↦ exited
      | some before ↦ link st.heap before c.nextpb >>= λ h. done (record st { heap = h })
    ]
    else (let st' = if is_at st.root current then record st { root = c.nextpb } else st in
        if is_at st.head current
        then elim one_before [
          | none ↦ if is_at st.root current then done (record st' { head = none }) else exited
          | some before ↦
              link st.heap before none >>= λ h. done (record st' { heap = h; head = some before })
        ]
        else elim one_before [
          | none ↦ if is_at st.root current then done st' else exited
          | some before ↦ done st'
        ])

abbrev pub no_packet : PacketBuffer
no_packet = record { toi = 0; esi = 0; length = 0; buffer = [] }

abbrev pub free : ℕ → Store → Store
free a st = record st { heap = put st.heap a none }

-- The second half of the call, from the packet sought on.
unfoldable pub take_from : ℕ → ℕ → ℕ → Option ℕ → Store → Run (PacketBuffer × Store)
unfolding scan_esi unlink
take_from fuel toi start one_before st =
    scan_esi fuel st.heap toi st.last_read_esi start one_before >>= λ found. elim found [
      | none ↦ done (no_packet, st)
      | some (current, before) ↦ load st.heap current >>= λ c.
          unlink current before c
            (record st { last_read_toi = toi; last_read_esi = (st.last_read_esi + 1) % 2 ^ 32 })
          >>= λ st'. done (c.pb, free current st')
    ]

abbrev pub ullong_max : ℕ
ullong_max = 2 ^ 64 - 1

abbrev pub restarted : ℕ → Store → Store
restarted toi st = if toi == st.last_read_toi then st else record st { last_read_esi = 0 }

-- From the second loop on.
abbrev pub started : ℕ → Store → Option ℕ → ℕ → Option ℕ → Run (PacketBuffer × Store)
started fuel st none smallest one_before = exited
started fuel st (some start) smallest one_before =
    take_from fuel smallest start one_before (restarted smallest st)

abbrev pub from_root : ℕ → Store → Option ℕ → Run (PacketBuffer × Store)
from_root fuel st none = crashed
from_root fuel st (some current) =
    scan_toi fuel st.heap current
      (record { one_before = none; smallest = ullong_max; start = none })
    >>= λ s. started fuel st s.start s.smallest s.one_before

unfoldable pub get_next_buffer_index : ℕ → Store → Run (PacketBuffer × Store)
get_next_buffer_index fuel st = from_root fuel st st.root

-- A packet of length 0 is taken out, but not off the count.
unfoldable pub new_read_from_buffer : ℕ → Store → Run (PacketBuffer × Store)
new_read_from_buffer fuel st =
    if st.fullness == 0
    then done (no_packet, st)
    else get_next_buffer_index fuel st >>= λ r.
        if r.0.length == 0 then done r else done (r.0, record (r.1) { fullness = r.1.fullness - 1 })
