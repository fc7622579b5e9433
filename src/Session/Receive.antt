-- ===== src/Session/Receive.antt =====
-- `session::handle_receive` on a read without an error: the packets of the buffer are handed on
-- one by one, and what is left is moved to the front. The callback stands for
-- tcp_server::process_packet; it is given the bytes that the header announces, as far as the
-- buffer holds them.
use jbjb.Base.{
  ℕ, zero, suc, ◌+◌, ◌*◌, ◌%◌, ◌^◌, ◌++◌, length, take, drop, ltb, leb, if◌then◌else◌, Result, ok,
  fault, endless, buffer_overflow, ◌>>=◌,
}
use jbjb.Base.Texts.{Text}
use jbjb.Protocol.{packet_header_size, header_size}

-- `p_header->size + packet_header_size`, in 32 bits.
unfoldable pub packet_total : Text → ℕ
packet_total rest = (header_size rest + packet_header_size) % 2 ^ 32

module _ {W : Type 0} (process_packet : Text → W → Result W) where
  -- The `while` loop, from the data that is left. `endless` means that the fuel ran out.
  unfoldable pub read_packets : ℕ → Text → W → Result (W × Text)
  read_packets zero rest w = fault endless
  read_packets (suc fuel) rest w =
      let next = process_packet (take (header_size rest + packet_header_size) rest) w >>= λ w'.
      read_packets fuel (drop (packet_total rest) rest) w' in
      if ltb (length rest) packet_header_size
      then ok (w, rest)
      else if leb (packet_total rest) (length rest)
      then next
      else ok (w, rest)

  -- `memcpy` into packet_buffer_ (of 2 * max_buffer_len bytes), the loop, and the move through
  -- temp_buffer_ (of max_buffer_len bytes).
  unfoldable pub receive : ℕ → ℕ → Text → Text → W → Result (W × Text)
  receive fuel max_buffer_len packet_buffer received w =
      if ltb (2 * max_buffer_len) (length packet_buffer + length received)
      then fault buffer_overflow
      else (read_packets fuel (packet_buffer ++ received) w >>= λ (w', rest).
          if ltb max_buffer_len (length rest) then fault buffer_overflow else ok (w', rest))
