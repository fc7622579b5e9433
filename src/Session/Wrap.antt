-- ===== src/Session/Wrap.antt =====
-- Headers that `session::handle_receive` does not expect: a size so near 2 ^ 32 that the sum with
-- the size of the header wraps round to zero, and packets beyond the buffers.
use jbjb.Base.{
  ℕ, zero, suc, ◌+◌, ◌^◌, ◌≤◌, ◌<◌, ◌≡◌, refl, sym, ap, ◌∙◌, List, [], ◌∷◌, ◌++◌, append-nil,
  append_assoc, arith, length, take, length-append, Result, ok, fault, endless, buffer_overflow,
}
use jbjb.Base.Texts.{Text}
use jbjb.Protocol.{packet_header_size, header_size}
use jbjb.Session.Chunks.{short-IsPending, receive_all}
use jbjb.Session.Framing.{IsPacket, concat, read_packets-stop}
use jbjb.Session.Receive.{packet_total, read_packets, receive}

module _ {W : Type 0} (handle : Text → W → Result W) where
  -- A header that announces 2 ^ 32 - 8 bytes keeps the loop at the same place for ever, whatever
  -- the callback makes of the packet, as long as it returns.
  pub read_packets_endless :
      (rest : Text)
      → packet_header_size ≤ length rest
      → header_size rest + packet_header_size ≡ 2 ^ 32
      → ((w : W)
          → (w' : W) × (handle (take (header_size rest + packet_header_size) rest) w ≡ ok w'))
      → (fuel : ℕ) (w : W) → read_packets handle fuel rest w ≡ fault endless
  unfolding read_packets packet_total
  read_packets_endless rest long wraps returns zero w = refl
  read_packets_endless rest long wraps returns (suc fuel) w =
      let (w', e) = returns w in
      let ih = read_packets_endless rest long wraps returns fuel w' in ground (arith, e, ih)

  -- A packet overflows a buffer as soon as more than `max_buffer_len` bytes of it have come and its
  -- end has not, in whatever reads they come, if at most `max_buffer_len` bytes waited before.
  pub receive_all_overflow :
      (max_buffer_len : ℕ) (p : Text)
      → IsPacket p
      → (chunks : List Text) (packet_buffer missing : Text) (w : W)
      → packet_buffer ++ (concat chunks ++ missing) ≡ p
      → 0 < length missing
      → length packet_buffer ≤ max_buffer_len
      → max_buffer_len < length packet_buffer + length (concat chunks)
      → receive_all handle max_buffer_len chunks packet_buffer w ≡ fault buffer_overflow
  unfolding receive_all receive
  receive_all_overflow max_buffer_len p hp [] packet_buffer missing w e h₁ h₂ h₃ =
      absurd (omega arith)
  receive_all_overflow max_buffer_len p hp (received ∷ later) packet_buffer missing w e h₁ h₂ h₃ =
      let total : length (packet_buffer ++ received) + length (concat later ++ missing) ≡ length p =
        omega (
          arith,
          length-append (packet_buffer ++ received) (concat later ++ missing),
          ap length e',
        ) in
      let stopped =
        read_packets-stop handle (length packet_buffer + length received)
          (packet_buffer ++ received) w
          (short-IsPending (packet_buffer ++ received) (concat later ++ missing) p [] hp
            (e' ∙ sym (append-nil p)) (omega (arith, length-append (concat later) missing))) in
      ground (
        arith,
        stopped,
        length-append packet_buffer received,
        length-append received (concat later),
        receive_all_overflow max_buffer_len p hp later (packet_buffer ++ received) missing w e' h₁,
      )
    where
      e' : (packet_buffer ++ received) ++ (concat later ++ missing) ≡ p
      e' =
          append_assoc packet_buffer received (concat later ++ missing)
          ∙ ap (◌++◌ packet_buffer) (sym (append_assoc received (concat later) missing))
          ∙ e
