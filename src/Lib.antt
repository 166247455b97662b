-- ===== src/Lib.antt =====
-- A model of HN-DL, a program that keeps recorded TLS, QUIC and SSH sessions until their keys can
-- be recovered. Its archive format MinARX (minarx/) stores what a later recovery needs of a
-- capture and expands it again, its archive policies (archive_policy.py) keep a capture as transport
-- payloads or protocol units, and its decryptor finds the handshake in a QUIC capture. This library
-- models these parts.
--
-- The parts of the program and the modules that model them:
--   minarx/binary.py              Binary: the varints, the blobs and the class Reader. A method of
--     Reader is an `Exec Reader`, which takes the reader and returns it moved on, or an error.
--   minarx/protocols/common.py    Records: split_tls_records, and in Records.Encode and
--     Records.Decode _encode_tls_records and _decode_tls_records. Tls:
--     materialize_tls_pcaps, and in Tls.Compact compact_tls_pcaps. Chunks: compact_chunk_pcaps, and
--     in Chunks.Expand materialize_chunk_pcaps. Readers: the two readers that run side by side in
--     the expansions, `layout` for the code's `reader` and `opaque` for its `opaque_reader`.
--     Hello: clear_handshake_messages, in Hello.Extensions _hello_extensions and in Hello.Parameters
--     tls_hello_parameters; Hello.Cursor has the reads at a position, Hello.Drained the inner loop.
--   minarx/pcap.py                Pcap: the chunks. Pcap.Fields and Pcap.Extract: extract_tcp_chunks and
--     extract_udp_datagrams. Pcap.Checksum, Pcap.Frames and Pcap.Write: _checksum, the frames of
--     _tcp_segment and _udp_datagram, and write_pcap. Pcap.Frames.Receiver is a receiver of such a
--     frame by the RFCs.
--   minarx/protocols/             Protocols.Tls: compact and validate of tls12.py and tls13.py.
--     Protocols.Quic: compact of quic.py. Protocols.Ssh: _negotiate, _validate_profile and compact of
--     ssh.py, and in Protocols.Ssh.Kexinit _name_list and _first_kexinit.
--   minarx/profiles.py            Profiles: the table PROFILES (Profiles.Registry), the stable
--     identifiers, the defaults and resolve_profile.
--   minarx/format.py              Container: _compress and write_container, and in Container.Read
--     read_container. Struct is `struct.Struct` on unsigned big-endian fields.
--   minarx/archive.py             Archive: compact_capture, inspect_archive and materialize_archive over the
--     table CODECS, whose TLS entries are in Archive.Codecs. Archive.Counts has the numbers
--     of their reports, and Prelude.Signed the differences, which may be negative.
--   archive_policy.py             Policy: the wire events. Policy.Wire: _encode_wire_events and
--     _decode_wire_events. Policy.Events: _tcp_events and _udp_events. Policy.Records:
--     _tls_record_events. Policy.Units: _quic_packet_events and _ssh_stream_events. Policy.Frames: the
--     packets, _PcapWriter, _write_tcp_pcap and _write_udp_pcap.
--   decryptor/quic/derive_quic.py  Quic.Varint: _decode_varint. Quic.Packets:
--     _iter_coalesced_packets. Quic.Frames: _parse_crypto_frames, _parse_handshake_from_crypto and
--     _reassemble_crypto_prefix. Quic.Keys: the packet keys. Quic.Protection: _decrypt_quic_initial and
--     _decrypt_quic_handshake_pkt. Quic.Search: _extract_quic_crypto_data. Quic.Flight:
--     _extract_quic_decrypted_handshake.
-- Maps has the dictionaries with number keys. Prelude has the lists, bits and bytes that these share; Result and Exec have the errors, one
-- constructor for each message of the code, and the two monads.
--
-- How the parts interact: a codec turns the chunks of the captures into a layout and the opaque
-- bytes, the container stores both behind a header with counters and the identifier of the
-- profile, and closes with a digest; the other direction reads the container and runs the codec's
-- expansion on the two sections. The Hello parser reads the records that the codec splits, and the
-- archive policy cuts datagrams with the packet iterator of the decryptor. The expanded chunks are written as a capture
-- file, from which the extraction reads rows again.
--
-- Numbers are natural numbers and bytes are numbers below 256. Python's integers do not wrap, and
-- the fields of `struct` refuse a number that is too large. Loops: `encode_loop` runs on the value
-- itself, which is at least as large as its number of digits; `drain` runs on the length of the
-- buffer, since a record takes five bytes at least; `uvarint_loop` has the ten rounds that the code
-- has; `fold_carries` runs on the number of bytes, and a sum of n words needs at most n rounds;
-- `pieces_of` and `send_pieces` run on the length of their bytes. `drain_messages`, `drain_units`,
-- `extension_loop`, `coalesced_loop`, `frames_loop`, `split_messages` and `kexinit_loop` run on the length of what they
-- read, of which each round takes a byte at least. The other loops are recursions on their list or their count.
--
-- Parameters: hashlib, zlib and lzma are the record Library of Container, and IsLibrary says what
-- their documentation does: a digest has 32 bytes and a compressed stream decompresses to what was
-- compressed, is at its end and leaves nothing unread. HMAC, HKDF-Expand, AES-ECB and AES-GCM are the
-- record Crypto of Quic.Keys, of which nothing is assumed.
--
-- Not modelled: the file system and tshark, so a capture is given as the rows that tshark prints
-- of it or as its chunks, and an archive as its bytes; printing, paths, the constant keys of manifests,
-- the fractions in floating point and the command line; the QUIC and SSH entries of CODECS; the capture drivers, the key schedules and the SSH and TLS recovery under decryptor/, the cost
-- models under analysis/ and the scripts.
pub mod Prelude
pub mod Result
pub mod Exec
pub mod Archive
pub mod Binary
pub mod Struct
pub mod Readers
pub mod Pcap
pub mod Records
pub mod Chunks
pub mod Profiles
pub mod Maps
pub mod Hello
pub mod Quic
pub mod Policy
pub mod Tls
pub mod Protocols
pub mod Container
mod Tests
