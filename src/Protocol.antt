-- ===== src/Protocol.antt =====
-- smilegate/project/GameChannelServer/protocol.h: the packet header and how a message becomes a
-- packet. Integers in the header lie in memory with their low byte first.
pub mod Status
pub mod Messages
pub mod Header
use jbjb.Base.{ℕ, ◌+◌, ◌*◌, ◌/◌, ◌%◌, ◌^◌, List, [], ◌∷◌, ◌++◌, length, drop}
use jbjb.Base.Texts.{Text}
use Messages.{MessageType, Message, type_code, message_type_of}

abbrev pub packet_header_size : ℕ
packet_header_size = 8

-- A 32-bit unsigned integer in memory.
unfoldable pub write_uint32 : ℕ → Text
write_uint32 n = n % 256 ∷ n / 256 % 256 ∷ n / 65536 % 256 ∷ n / 16777216 % 256 ∷ []

-- Every caller has at least four bytes at hand.
unfoldable pub read_uint32 : Text → ℕ
read_uint32 (a ∷ b ∷ c ∷ d ∷ _) = a + 256 * b + 65536 * c + 16777216 * d
read_uint32 _ = 0

-- The fields of `(packet_header *)data`.
unfoldable pub header_size : Text → ℕ
header_size data' = read_uint32 data'

unfoldable pub header_type : Text → ℕ
header_type data' = read_uint32 (drop 4 data')

-- `incoding`: the header, and the serialised message behind it.
pub incoding : MessageType → Text → Text
incoding type' body =
    write_uint32 (length body % 2 ^ 32) ++ (write_uint32 (type_code type') ++ body)

-- The overloads of `incode_message` differ in the type that they write into the header.
unfoldable pub incode_message : (Message → Text) → Message → Text
incode_message serialize message = incoding (message_type_of message) (serialize message)
