-- ===== src/Protocol/Header.antt =====
-- What the header of a packet says, read back.
use jbjb.Base.{ℕ, ◌+◌, ◌^◌, ◌<◌, ◌≡◌, refl, ◌++◌, arith, length, drop}
use jbjb.Base.Texts.{Text}
use jbjb.Protocol.{
  packet_header_size, write_uint32, read_uint32, header_size, header_type, incoding, incode_message,
}
use jbjb.Protocol.Messages.{MessageType, Message, type_code, message_type_of}

pub read-write_uint32 :
    (n : ℕ) (rest : Text) → n < 2 ^ 32 → read_uint32 (write_uint32 n ++ rest) ≡ n
unfolding read_uint32 write_uint32
read-write_uint32 n rest h = omega arith

pub header_size-incoding :
    (t : MessageType) (body rest : Text)
    → length body < 2 ^ 32
    → header_size (incoding t body ++ rest) ≡ length body
unfolding header_size incoding read_uint32 write_uint32
header_size-incoding t body rest h = omega arith

pub length-incoding :
    (t : MessageType) (body : Text) → length (incoding t body) ≡ length body + packet_header_size
unfolding incoding write_uint32
length-incoding t body = omega arith

-- A packet that carries a message of less than 4 GB is read back: its size, its type and its body.
pub incode_message-decode :
    (serialize : Message → Text) (message : Message) (rest : Text)
    → length (serialize message) < 2 ^ 32
    → let packet = incode_message serialize message ++ rest in
      (header_size packet ≡ length (serialize message))
      × (header_type packet ≡ type_code (message_type_of message))
      × (drop packet_header_size packet ≡ serialize message ++ rest)
unfolding incode_message header_size header_type incoding read_uint32 write_uint32
incode_message-decode serialize message rest h = (omega arith, ground (arith), refl)
