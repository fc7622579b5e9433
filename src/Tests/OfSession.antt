-- ===== src/Tests/OfSession.antt =====
-- Tests of the sessions and of the packets.
use jbjb.Base.{
  ◌≡◌, refl, List, [], ◌∷◌, ◌++◌, map, take, drop, length, arith, Result, ok, fault,
  buffer_overflow, ◌>>=◌,
}
use jbjb.Base.Texts.{Text, codes}
use jbjb.Protocol.Header.{incode_message-decode}
use jbjb.Protocol.Messages.{error_report, error_msg, type_code}
use jbjb.Protocol.Status.{login}
use jbjb.Protocol.{packet_header_size, header_size, header_type, incode_message, read_uint32}
use jbjb.Session.Chunks.{receive_all, receive_all-deliver}
use jbjb.Session.Ending.{Ending, read_packets-ends}
use jbjb.Server.{process_packet}
use jbjb.Session.Framing.{IsPacket, deliver}
use jbjb.Session.Sending.{SendEvent, send, complete, completions, sized, packets, run, run_fifo}
use jbjb.Session.Wrap.{receive_all_overflow}
use jbjb.Tests.{lobby, outside, nothing_found, session_of}
use jbjb.World.{Session}

-- The packets that a handler has seen, oldest first.
abbrev note : Text → List Text → Result (List Text)
note p seen = ok (seen ++ p ∷ [])

abbrev packet : Text
packet = 3 ∷ 0 ∷ 0 ∷ 0 ∷ 7 ∷ 0 ∷ 0 ∷ 0 ∷ codes "abc"

abbrev empty_packet : Text
empty_packet = 0 ∷ 0 ∷ 0 ∷ 0 ∷ 10 ∷ 0 ∷ 0 ∷ 0 ∷ []

packet-IsPacket : IsPacket packet
unfolding header_size read_uint32
packet-IsPacket = record { header = omega arith; size = refl; fits = omega arith }

empty_packet-IsPacket : IsPacket empty_packet
unfolding header_size read_uint32
empty_packet-IsPacket = record { header = omega arith; size = refl; fits = omega arith }

-- Two packets in three reads.
receive_all-deliver_example :
    receive_all note 16
      (take 5 packet ∷ (drop 5 packet ++ take 3 empty_packet) ∷ drop 3 empty_packet ∷ [])
      []
      []
    ≡ (deliver note (packet ∷ empty_packet ∷ []) [] >>= λ w'. ok (w', []))
receive_all-deliver_example =
    receive_all-deliver note 16
      (take 5 packet ∷ (drop 5 packet ++ take 3 empty_packet) ∷ drop 3 empty_packet ∷ [])
      (packet ∷ empty_packet ∷ []) [] [] (packet-IsPacket, (empty_packet-IsPacket, tt))
      (omega arith, (omega arith, tt)) (omega arith, (omega arith, (omega arith, tt))) refl
      (omega arith)

receive_all_overflow_example :
    receive_all note 8 (take 6 packet ∷ take 4 (drop 6 packet) ∷ []) [] [] ≡ fault buffer_overflow
receive_all_overflow_example =
    receive_all_overflow note 8 packet packet-IsPacket (take 6 packet ∷ take 4 (drop 6 packet) ∷ [])
      [] (drop 10 packet) [] refl (omega arith) (omega arith) (omega arith)

abbrev events : List SendEvent
events =
    send (error_report (codes "yes"))
    ∷ send (error_report (codes "no"))
    ∷ complete
    ∷ send (error_report [])
    ∷ []

abbrev speaker : Session
speaker = session_of (codes "ann") login

run_fifo_example :
    (s' : Session) × (done : List Text) × (run (outside nothing_found).serialize events speaker
      ≡ ok s')
    × (packets (outside nothing_found).serialize events ≡ done ++ s'.send_data_queue)
    × (length done ≡ completions events)
    × (s'.written ≡ map sized (done ++ take 1 s'.send_data_queue))
run_fifo_example =
    run_fifo (outside nothing_found).serialize events speaker (λ e. cc) refl refl
      (omega arith, (omega arith, (omega arith, tt))) tt

incode_message-decode_example :
    let packet' =
      incode_message (outside nothing_found).serialize (error_report (codes "yes")) ++ packet in
    (header_size packet' ≡ 3)
    × (header_type packet' ≡ type_code error_msg)
    × (drop packet_header_size packet' ≡ codes "yes" ++ packet)
incode_message-decode_example =
    incode_message-decode (outside nothing_found).serialize (error_report (codes "yes")) packet
      (omega arith)

-- The header announces 2 ^ 32 - 8 bytes.
abbrev wrapping : Text
wrapping = 248 ∷ 255 ∷ 255 ∷ 255 ∷ 0 ∷ 0 ∷ 0 ∷ 0 ∷ []

-- A request for a game, and such a header behind it.
abbrev request_and_wrap : Text
request_and_wrap = 0 ∷ 0 ∷ 0 ∷ 0 ∷ 2 ∷ 0 ∷ 0 ∷ 0 ∷ wrapping

read_packets-ends_example :
    Ending (process_packet (outside nothing_found) 1 1) 17 request_and_wrap lobby
read_packets-ends_example =
    read_packets-ends (process_packet (outside nothing_found) 1 1) 17 request_and_wrap lobby
      (omega arith)
