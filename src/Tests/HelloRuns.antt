-- ===== src/Tests/HelloRuns.antt =====
-- minarx/protocols/common.py: the parser of the clear Hellos on small captures.
use hndl_dev.Prelude.{◌≡◌, ◌++◌, refl, List, [], ◌∷◌, All, arith, false, bytes_eq}
use hndl_dev.Prelude.Endian.{from_bytes_big, to_bytes_big}
use hndl_dev.Result.{ok, err, ValueFault, value_error, no_client_hello}
use hndl_dev.Binary.{Bytes}
use hndl_dev.Pcap.{Chunk, IsChunk}
use hndl_dev.Records.{TlsRecord, drain, split_chunks, split_tls_records}
use hndl_dev.Hello.{Message, drain_messages, handshake_records, clear_handshake_messages}
use hndl_dev.Hello.Drained.{Incomplete, IsFramed, message_stream, handshake_stream}
use hndl_dev.Hello.Framing.{clear_handshake_messages_framing}
use hndl_dev.Hello.Cursor.{byte_at}
use hndl_dev.Hello.Extensions.{hello_extensions}
use hndl_dev.Hello.Extensions.RoundTrip.{
  enter, ClientHello, IsClientHello, extensions_bytes, extension_bytes, client_hello_bytes,
  hello_extensions-client_hello_bytes,
}
use hndl_dev.Hello.Parameters.{first_hellos, present, tls_hello_parameters}
use hndl_dev.Hello.Safety.{tls_hello_parameters_raises}

abbrev front : Bytes
front =
    1 ∷ 0 ∷ 0 ∷ 52 ∷ 3 ∷ 3 ∷ 0 ∷ 1 ∷ 2 ∷ 3 ∷ 4 ∷ 5 ∷ 6 ∷ 7 ∷ 8 ∷ 9 ∷ 10 ∷ 11 ∷ 12 ∷ 13 ∷ 14 ∷ 15
    ∷ 16 ∷ 17 ∷ 18 ∷ 19 ∷ 20 ∷ 21 ∷ 22 ∷ 23 ∷ 24 ∷ 25 ∷ 26 ∷ 27 ∷ 28 ∷ 29 ∷ 30 ∷ 31 ∷ []

abbrev hello : ClientHello
hello = record {
  front = front;
  session_id = 7 ∷ 7 ∷ [];
  cipher_suites = 19 ∷ 1 ∷ [];
  compression = 0 ∷ [];
  extensions = (43, 2 ∷ 3 ∷ 4 ∷ []) ∷ (51, []) ∷ [];
}

hello-IsClientHello : IsClientHello hello
unfolding extensions_bytes extension_bytes to_bytes_big
hello-IsClientHello = record {
  front_size = refl;
  session_id_byte = omega arith;
  suites_word = omega arith;
  compression_byte = omega arith;
  extensions_valid = (
    record { type_word = omega arith; size_word = omega arith },
    (record { type_word = omega arith; size_word = omega arith }, tt),
  );
  extensions_word = omega arith;
}

hello_extensions-client_hello_bytes_example :
    hello_extensions (client_hello_bytes hello) false ≡ ok (enter [] hello.extensions)
hello_extensions-client_hello_bytes_example =
    hello_extensions-client_hello_bytes hello hello-IsClientHello

-- A ServerHelloDone in two chunks.
abbrev done_chunks : List Chunk
done_chunks =
    record { direction = 1; contents = 22 ∷ 3 ∷ 3 ∷ 0 ∷ 4 ∷ 14 ∷ [] }
    ∷ record { direction = 1; contents = 0 ∷ 0 ∷ 0 ∷ [] }
    ∷ []

done_chunks-IsChunk : All IsChunk done_chunks
done_chunks-IsChunk = (
  record { direction_bound = omega arith; bytes = omega arith },
  (record { direction_bound = omega arith; bytes = omega arith }, tt),
)

abbrev done_message : List Message
done_message = record { direction = 1; contents = 14 ∷ 0 ∷ 0 ∷ 0 ∷ [] } ∷ []

done_run : clear_handshake_messages done_chunks ≡ ok done_message
unfolding clear_handshake_messages handshake_records drain_messages split_tls_records split_chunks
    drain from_bytes_big
done_run = refl

clear_handshake_messages_framing_example :
    (records : List TlsRecord) × (rest : Bytes) × (split_tls_records done_chunks ≡ ok records)
    × (message_stream 1 done_message ++ rest ≡ handshake_stream 1 records)
    × Incomplete rest
    × All IsFramed done_message
clear_handshake_messages_framing_example =
    clear_handshake_messages_framing done_chunks done_message 1 (omega arith) done_chunks-IsChunk
      done_run

no_hello_run : tls_hello_parameters done_chunks ≡ err (value_error no_client_hello)
unfolding tls_hello_parameters first_hellos byte_at present clear_handshake_messages
    handshake_records drain_messages split_tls_records split_chunks drain from_bytes_big bytes_eq
no_hello_run = refl

tls_hello_parameters_raises_example :
    (f : ValueFault) × (value_error no_client_hello ≡ value_error f)
tls_hello_parameters_raises_example =
    tls_hello_parameters_raises done_chunks (value_error no_client_hello) done_chunks-IsChunk
      no_hello_run
