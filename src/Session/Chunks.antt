-- ===== src/Session/Chunks.antt =====
-- Reads of any size: how the packets of a stream are delivered, and the buffers that hold them.
use jbjb.Base.{
  ℕ, suc, ◌+◌, ◌*◌, ◌≤◌, ◌<◌, ◌≡◌, refl, sym, ap, ◌∙◌, subst, inl, inr, List, [], ◌∷◌, ◌++◌,
  append_assoc, arith, length, drop, length-append, All, All-append_right, Result, ok, ◌>>=◌,
  >>=_congr, >>=_assoc, false, ltb,
}
use jbjb.Base.Texts.{Text}
use jbjb.Protocol.{packet_header_size, header_size}
use jbjb.Session.Receive.{receive}
use jbjb.Session.Framing.{
  IsPacket, IsPending, Stream, stop, more, concat, deliver, header_size-append, read_packets-Stream,
  Waits, Cut, prefix-take, prefix-tail,
}
use native.Mathlib.Decide.{dec_lt}

pub short-IsPending :
    (xs ys p q : Text) → IsPacket p → xs ++ ys ≡ p ++ q → length xs < length p → IsPending xs
short-IsPending xs ys p q hp e h = elim (dec_lt (length xs) packet_header_size) [
  | yes short ↦ inl short
  | no long ↦
      let same : header_size p ≡ header_size xs =
        ap header_size (prefix-take xs ys p q e (omega arith))
        ∙ header_size-append xs (drop (length xs) p) (omega arith) in
      inr (omega (arith, hp.size, hp.fits), omega (arith, hp.size, hp.fits))
]

pub cut : (ps : List Text) (xs ys : Text) → All IsPacket ps → xs ++ ys ≡ concat ps → Cut xs ys ps
cut [] [] ys h e = record {
  done = [];
  todo = [];
  rest = [];
  parts = refl;
  stream = stop (inl (omega arith));
  behind = e;
  waits = refl;
}
cut [] (x ∷ xs) ys h e = cc
cut (p ∷ ps) xs ys h e = elim (dec_lt (length xs) (length p)) [
  | yes short ↦ record {
    done = [];
    todo = p ∷ ps;
    rest = xs;
    parts = refl;
    stream = stop (short-IsPending xs ys p (concat ps) h.0 e short);
    behind = e;
    waits = short;
  }
  | no long ↦
      let (t, e₁, e₂) = prefix-tail xs ys p (concat ps) e (omega arith) in
      let c : Cut t ys ps = cut ps t ys h.1 e₂ in
      record {
        done = p ∷ c.done;
        todo = c.todo;
        rest = c.rest;
        parts = ap (◌∷◌ p) c.parts;
        stream = subst (Stream (p ∷ c.done) c.rest) (sym e₁) (more h.0 c.stream);
        behind = c.behind;
        waits = c.waits;
      }
]

abbrev pub IsSmall : ℕ → Text → Type 0
IsSmall max_buffer_len p = length p ≤ max_buffer_len

Waits-small :
    (max_buffer_len : ℕ) (rest : Text) (ps : List Text)
    → All (IsSmall max_buffer_len) ps
    → Waits rest ps
    → length rest ≤ max_buffer_len
Waits-small max_buffer_len rest [] h waits = omega (arith, ap length waits)
Waits-small max_buffer_len rest (p ∷ ps) h waits = omega (arith, h.0)

module _ {W : Type 0} (handle : Text → W → Result W) where
  deliver-append :
      (ps qs : List Text) (w : W)
      → deliver handle (ps ++ qs) w ≡ (deliver handle ps w >>= deliver handle qs)
  deliver-append [] qs w = refl
  deliver-append (p ∷ ps) qs w =
      >>=_congr (handle p w) (deliver-append ps qs)
      ∙ sym (>>=_assoc (handle p w) (deliver handle ps) (deliver handle qs))

  module _ (max_buffer_len : ℕ) where
    -- The reads of a session, one after the other.
    unfoldable pub receive_all : List Text → Text → W → Result (W × Text)
    unfolding receive
    receive_all [] packet_buffer w = ok (w, packet_buffer)
    receive_all (received ∷ later) packet_buffer w =
        receive handle (suc (length packet_buffer + length received)) max_buffer_len packet_buffer
          received w
        >>= λ (w', rest). receive_all later rest w'

    receive-Stream :
        {ps : List Text} {rest : Text} (packet_buffer received : Text) (w : W)
        → Stream ps rest (packet_buffer ++ received)
        → length packet_buffer ≤ max_buffer_len
        → length received ≤ max_buffer_len
        → length rest ≤ max_buffer_len
        → receive handle
            (suc (length packet_buffer + length received))
            max_buffer_len
            packet_buffer
            received
            w
          ≡ (deliver handle ps w >>= λ w'. ok (w', rest))
    unfolding receive
    receive-Stream {ps} {rest} packet_buffer received w s h₁ h₂ h₃ =
        rw (bounded, read_packets-Stream handle _ w s enough)
          (>>=_assoc (deliver handle ps w) (λ w'. ok (w', rest)) _
            ∙ >>=_congr (deliver handle ps w) (λ w'. rw kept))
      where
        bounded : ltb (2 * max_buffer_len) (length packet_buffer + length received) ≡ false
        bounded = ground arith

        enough : length (packet_buffer ++ received) < suc (length packet_buffer + length received)
        enough = omega (arith, length-append packet_buffer received)

        kept : ltb max_buffer_len (length rest) ≡ false
        kept = ground arith

    -- However a stream of whole packets is cut into reads, each packet goes to the callback once,
    -- whole and in order, and neither buffer overflows, if packets and reads have at most
    -- `max_buffer_len` bytes and the bytes that already wait are less than the first packet.
    pub receive_all-deliver :
        (chunks ps : List Text) (packet_buffer : Text) (w : W)
        → All IsPacket ps
        → All (IsSmall max_buffer_len) ps
        → All (IsSmall max_buffer_len) chunks
        → packet_buffer ++ concat chunks ≡ concat ps
        → Waits packet_buffer ps
        → receive_all chunks packet_buffer w ≡ (deliver handle ps w >>= λ w'. ok (w', []))
    unfolding receive_all
    receive_all-deliver [] [] packet_buffer w hp small reads e waits = rw waits
    receive_all-deliver [] (p ∷ ps) packet_buffer w hp small reads e waits =
        absurd
          (omega (arith, ap length e, length-append packet_buffer [], length-append p (concat ps)))
    receive_all-deliver (received ∷ later) ps packet_buffer w hp small reads e waits =
        rw
          (receive-Stream packet_buffer received w k.stream
            (Waits-small max_buffer_len packet_buffer ps small waits) reads.0
            (Waits-small max_buffer_len k.rest k.todo
              (All-append_right (IsSmall max_buffer_len) k.done k.todo small') k.waits))
          (>>=_assoc (deliver handle k.done w) (λ w'. ok (w', k.rest)) _
            ∙ >>=_congr (deliver handle k.done w) (λ w'.
              receive_all-deliver later k.todo k.rest w'
                (All-append_right IsPacket k.done k.todo hp')
                (All-append_right (IsSmall max_buffer_len) k.done k.todo small') reads.1 k.behind
                k.waits)
            ∙ sym (>>=_assoc (deliver handle k.done w) (deliver handle k.todo) (λ w'. ok (w', [])))
            ∙ ap (λ r. r >>= λ w'. ok (w', [])) delivered)
      where
        k : Cut (packet_buffer ++ received) (concat later) ps
        k =
            cut ps (packet_buffer ++ received) (concat later) hp
              (append_assoc packet_buffer received (concat later) ∙ e)

        hp' : All IsPacket (k.done ++ k.todo)
        hp' = subst (All IsPacket) k.parts hp

        small' : All (IsSmall max_buffer_len) (k.done ++ k.todo)
        small' = subst (All (IsSmall max_buffer_len)) k.parts small

        delivered : (deliver handle k.done w >>= deliver handle k.todo) ≡ deliver handle ps w
        delivered =
            sym (deliver-append k.done k.todo w) ∙ ap (λ qs. deliver handle qs w) (sym k.parts)
