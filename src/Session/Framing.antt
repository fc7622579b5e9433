-- ===== src/Session/Framing.antt =====
-- Streams of packets, and the loop of `session::handle_receive` on them.
use jbjb.Base.{
  ℕ, zero, suc, ◌+◌, ◌^◌, ◌≤◌, ◌<◌, ◌≡◌, refl, sym, ap₂, ◌∙◌, ◌⊎◌, List, [], ◌∷◌, ◌++◌, arith,
  length, drop, length-append, take-length_append, drop-length_append, Result, ok, ◌>>=◌, >>=_congr,
  >>=_assoc,
}
use jbjb.Base.Texts.{Text}
use jbjb.Protocol.{packet_header_size, header_size, read_uint32}
use jbjb.Session.Receive.{packet_total, read_packets}
use native.Mathlib.Nat.{mod-eq_of_lt}

-- A whole packet: its header announces what is behind it, and 32 bits hold its length.
pub record IsPacket (p : Text) : Type 0 where
  pub header : packet_header_size ≤ length p
  pub size : header_size p + packet_header_size ≡ length p
  pub fits : length p < 2 ^ 32

-- The start of a packet that has not come whole.
abbrev pub IsPending : Text → Type 0
IsPending rest =
    (length rest < packet_header_size)
    ⊎ ((length rest < header_size rest + packet_header_size)
        × (header_size rest + packet_header_size < 2 ^ 32))

-- The packets at the front of a stream, and the bytes behind them.
pub data Stream : List Text → Text → Text → Type 0 where
  stop : {rest : Text} → IsPending rest → Stream [] rest rest
  more :
      {p tail rest : Text} {ps : List Text}
      → IsPacket p
      → Stream ps rest tail
      → Stream (p ∷ ps) rest (p ++ tail)

abbrev pub concat : List Text → Text
concat [] = []
concat (p ∷ ps) = p ++ concat ps

-- Each packet to the callback, in turn.
abbrev pub deliver : {W : Type 0} → (Text → W → Result W) → List Text → W → Result W
deliver handle [] w = ok w
deliver handle (p ∷ ps) w = handle p w >>= deliver handle ps

pub header_size-append :
    (p tail : Text) → packet_header_size ≤ length p → header_size (p ++ tail) ≡ header_size p
unfolding header_size read_uint32
header_size-append (a ∷ b ∷ c ∷ d ∷ p) tail h = refl
header_size-append [] tail h = absurd (omega arith)
header_size-append (a ∷ []) tail h = absurd (omega arith)
header_size-append (a ∷ b ∷ []) tail h = absurd (omega arith)
header_size-append (a ∷ b ∷ c ∷ []) tail h = absurd (omega arith)

module _ {W : Type 0} (handle : Text → W → Result W) where
  -- One round of the loop, at a whole packet.
  read_packets-packet :
      (fuel : ℕ) (p tail : Text) (w : W)
      → IsPacket p
      → read_packets handle (suc fuel) (p ++ tail) w
        ≡ (handle p w >>= λ w'. read_packets handle fuel tail w')
  unfolding read_packets packet_total
  read_packets-packet fuel p tail w h =
      let size : header_size (p ++ tail) + packet_header_size ≡ length p =
        omega (arith, header_size-append p tail h.header, h.size) in
      rw
        (
          length-append p tail,
          size,
          take-length_append p tail,
          mod-eq_of_lt h.fits,
          drop-length_append p tail,
        )
        (ground (arith, h.header))

  pub read_packets-stop :
      (fuel : ℕ) (rest : Text) (w : W)
      → IsPending rest
      → read_packets handle (suc fuel) rest w ≡ ok (w, rest)
  unfolding read_packets packet_total
  read_packets-stop fuel rest w h = ground arith

  -- The loop hands on the packets of the stream, in order, and leaves the bytes behind them. Fuel
  -- beyond the length of the stream is enough.
  pub read_packets-Stream :
      {ps : List Text} {rest whole : Text} (fuel : ℕ) (w : W)
      → Stream ps rest whole
      → length whole < fuel
      → read_packets handle fuel whole w ≡ (deliver handle ps w >>= λ w'. ok (w', rest))
  read_packets-Stream zero w s h = elim h [ ]
  read_packets-Stream (suc fuel) w (stop pending) h = read_packets-stop fuel _ w pending
  read_packets-Stream (suc fuel) w (more {p} {tail} {rest} {ps} whole s) h =
      read_packets-packet fuel p tail w whole
      ∙ >>=_congr (handle p w)
          (λ w'. read_packets-Stream fuel w' s (omega (arith, length-append p tail, whole.header)))
      ∙ sym (>>=_assoc (handle p w) (deliver handle ps) (λ w'. ok (w', rest)))

-- The bytes that wait are the start of the first packet to come.
abbrev pub Waits : Text → List Text → Type 0
Waits rest [] = rest ≡ []
Waits rest (p ∷ ps) = length rest < length p

-- How far a prefix of a stream of whole packets gets.
pub record Cut (xs ys : Text) (ps : List Text) : Type 0 where
  pub done : List Text
  pub todo : List Text
  pub rest : Text
  pub parts : ps ≡ done ++ todo
  pub stream : Stream done rest xs
  pub behind : rest ++ ys ≡ concat todo
  pub waits : Waits rest todo

pub prefix-take :
    (xs ys p q : Text) → xs ++ ys ≡ p ++ q → length xs ≤ length p → p ≡ xs ++ drop (length xs) p
prefix-take [] ys p q e h = refl
prefix-take (x ∷ xs) ys [] q e h = absurd (omega arith)
prefix-take (x ∷ xs) ys (y ∷ p) q e h =
    let ih : p ≡ xs ++ drop (length xs) p = prefix-take xs ys p q (cc) (omega arith) in
    ap₂ ◌∷◌ (cc) ih

pub prefix-tail :
    (xs ys p q : Text)
    → xs ++ ys ≡ p ++ q
    → length p ≤ length xs
    → (t : Text) × (xs ≡ p ++ t) × (t ++ ys ≡ q)
prefix-tail xs ys [] q e h = (xs, refl, e)
prefix-tail [] ys (y ∷ p) q e h = absurd (omega arith)
prefix-tail (x ∷ xs) ys (y ∷ p) q e h =
    let (t, e₁, e₂) = prefix-tail xs ys p q (cc) (omega arith) in (t, ap₂ ◌∷◌ (cc) e₁, e₂)
