-- ===== src/Lib.antt =====
-- MAD-FCL: a FLUTE, ALC and ROUTE library for delivering files over multicast.
--
-- The program is layered. flutelib describes files and sessions of files; alclib moves transport
-- objects: it cuts them into source blocks, writes each symbol behind an ALC header (alc_tx.c,
-- lct_hdr.c, alc_hdr.c), parses what arrives (alc_rx.c), watches its sequence numbers (mad_rlc.c)
-- and collects the symbols of a block in order (transport.c). This development is about
-- alclib and a part of flutelib.
--
-- Base: the shared names, C arrays as lists, casts to fixed widths, and masks as remainders.
-- Blocking: alclib/blocking_alg.c. `lldiv` and `div` on signed patterns, their undefined cases as
-- a result; the partition of RFC 3452 against the code, and the receiver's update.
-- Wire: packet buffers, as the byte at each offset, and the words of `htonl` and `ntohl`.
-- Lct, Alc: the header extensions and payload identifiers that the sender writes, alclib/lct_hdr.c
-- and alclib/alc_hdr.c, one function for each of theirs, and the words that they leave.
-- Packet: the header of a packet. Header is the fixed structure of alclib/lct_hdr.h; Send writes
-- the whole header as `send_unit` of alclib/alc_tx.c does; Address, Extension, PayloadId and Parse
-- are the parts of `parse_packet` of alclib/alc_rx.c, in its order and with its early returns;
-- Analyze and its modules are those of `analyze_packet` there, up to the label `alc_object`, but for
-- what the flag A does to the state of the session.
-- Collect: `analyze_packet` from that label on. Position finds the block of a packet from the
-- parameters of a file with repair symbols, Store puts a unit into the block of an object and
-- updates the blocking structure behind it; Ready and Updated are about objects of one block.
-- Session: the list of wanted objects of alclib/alc_session.c, which `analyze_packet` reads;
-- Received is that of the received instances, which `parse_packet` reads.
-- Replace: `str_replace` of alclib/alc_rx.c, for templates of file names.
-- Reorder: the buffer of alclib/alc_rx.c for a forwarding server, a linked list in a heap of cells.
-- Transport: alclib/transport.c, blocks and objects with their ordered lists. Arrival hands the
-- units of a block one by one, in any order, to `insert_unit`.
-- Rlc: alclib/mad_rlc.c, the congestion control. Update ages the late and lost packets, Receive
-- checks a sequence number and processes a header; Sender fills the headers,
-- of which Spacing has the numbers and the synchronisation points.
-- Queue: alclib/alc_list.c, the queue of received containers.
-- Xor: alclib/xor_fec.c, the code of one parity symbol: encoding and decoding of a source block.
-- NullFec: alclib/null_fec.c, source blocks without redundancy. Delivery is the way of a block
-- from its bytes through `insert_unit` of alclib/transport.c and back, Object that of the blocks to
-- an object.
-- Text, Numbers: strings of C and the functions of its library on numbers.
-- Uri: flutelib/uri.c, the parser and the printer.
-- Fdt: the file delivery table. Merge sets the update of flutelib/fdt.c against a map from TOIs,
-- Copying one description of it against Completed;
-- Instance and Elements are its handler of XML elements, Generate is flutelib/fdt_gen.c, which
-- prints values without escapes, and Markup has the parser between the two, which gives plain values
-- as they stand. The others set the two sides against each other: Announce and Exchange for an
-- element, Delivery and Document for an instance, Names for the name of a file, Malformed for what
-- is not generated.
-- Sender: flutelib/sender.c, the loops that hand a file and an instance of the file delivery table
-- to `alc_send`, block by block. Sizes sets the blocks against alclib/blocking_alg.c, Whole against
-- the object, and Delivered is the way of a file to the receiver, through NullFec and Transport.
-- Carousel is the round over the file delivery table, Behind its order with the descriptions behind
-- the files.
-- Utf8: flutelib/mad_utf8.c, the two conversions between ISO-8859-1 and UTF-8.
--
-- Numbers are natural; a width of C is written out as a remainder, a subtraction of C where it can
-- fall below 0 as well. A buffer has a byte at each offset, so that reading behind the end of a
-- packet gives some byte. The loop of `parse_packet` runs on fuel: 256 rounds are enough, since the
-- header length is a byte, unless the loop does not end at all; that of
-- `analyze_packet` runs on fuel too, and what is said of it holds on whatever fuel. The walks over
-- the cells of Reorder need as much fuel as there are cells. Loops over lists are structural.
--
-- Machines are little-endian. Allocations succeed, except that of the blocking structure. The
-- clock of the congestion control is read once for a call, in milliseconds. Opening a channel is
-- an argument of the congestion control, and what the XML parser makes of an attribute's value one
-- of the file delivery table. `alc_send` and the writing of an instance are arguments of the sender of
-- files, and a file that is read is its bytes, with a reading error behind them or none.
--
-- Not modelled: threads, sockets and files; encode_directory; create_fdt_instance of sender.c; in
-- alc_rx.c the update of the file delivery table and the temporary files of a receiver with little
-- memory, and the loops that receive; the queue of alc_tx.c; channels; the Reed-Solomon and Raptor
-- codes, of which alclib/fec.c and nanorq-stable are copies of other projects; most of flutelib
-- and all of sdplib, of which the mail parser and the SDP parser are copies too.
pub mod Base
pub mod Blocking
pub mod Wire
pub mod Lct
pub mod Alc
pub mod Packet
pub mod Transport
pub mod Rlc
pub mod Xor
pub mod Queue
pub mod Utf8
pub mod Session
pub mod Reorder
pub mod Collect
pub mod NullFec
pub mod Text
pub mod Numbers
pub mod Uri
pub mod Fdt
pub mod Sender
pub mod Replace
