-- ===== src/Session/Ending.antt =====
-- When the loop of `session::handle_receive` comes to its end.
use jbjb.Base.{
  ℕ, zero, suc, suc_left, ◌+◌, ◌≤◌, ◌<◌, ◌≡◌, refl, ap, ◌∙◌, ◌⊎◌, inl, inr, ◌==◌, sym, subst,
  Bool-cases, ltb, [], ◌∷◌, arith, length, length-drop, take, drop, Result, Fault, ok, fault,
  endless, Result-cases,
}
use jbjb.Base.Texts.{Text}
use jbjb.Protocol.{packet_header_size, header_size}
use jbjb.Session.Receive.{packet_total, read_packets}

-- The front of the data holds no whole packet, as the loop sees it.
abbrev pub IsPartial : Text → Type 0
IsPartial rest = (length rest < packet_header_size) ⊎ (length rest < packet_total rest)

-- A header of a packet that has, in 32 bits, no bytes.
abbrev pub IsEmptyTotal : Text → Type 0
IsEmptyTotal rest = (packet_header_size ≤ length rest) × (packet_total rest ≡ 0)

drop-nil : (k : ℕ) → drop {A = ℕ} k [] ≡ []
drop-nil zero = refl
drop-nil (suc k) = refl

drop-drop : (j k : ℕ) (xs : Text) → drop k (drop j xs) ≡ drop (j + k) xs
drop-drop zero k xs = ap (λ n. drop n xs) (omega arith)
drop-drop (suc j) k [] = drop-nil k ∙ sym (drop-nil (suc j + k))
drop-drop (suc j) k (a ∷ xs) =
    drop-drop j k xs ∙ subst (λ n. drop (j + k) xs ≡ drop n (a ∷ xs)) (suc_left j k) refl

module _ {W : Type 0} (handle : Text → W → Result W) where
  -- The packet at the front of the data.
  abbrev front : Text → Text
  front data' = take (header_size data' + packet_header_size) data'

  -- The packets in front of the first `done` bytes have been handed on, and brought `w` to `at`.
  pub data Handles : Text → W → ℕ → W → Type 0 where
    none_yet : {data' : Text} {w : W} → Handles data' w 0 w
    next :
        {data' : Text} {w w' at : W} {done : ℕ}
        → packet_header_size ≤ length data'
        → packet_total data' ≤ length data'
        → handle (front data') w ≡ ok w'
        → Handles (drop (packet_total data') data') w' done at
        → Handles data' w (packet_total data' + done) at

  -- The loop stops with data that holds no whole packet.
  pub record Stops (fuel : ℕ) (data' : Text) (w : W) : Type 0 where
    pub after : W
    pub done : ℕ
    pub handled : Handles data' w done after
    pub result : read_packets handle fuel data' w ≡ ok (after, drop done data')
    pub partial : IsPartial (drop done data')

  -- The callback ends in a fault, and the loop with it.
  pub record Faults (fuel : ℕ) (data' : Text) (w : W) : Type 0 where
    pub at : W
    pub done : ℕ
    pub why : Fault
    pub handled : Handles data' w done at
    pub refused : handle (front (drop done data')) at ≡ fault why
    pub result : read_packets handle fuel data' w ≡ fault why

  -- The loop never stops, since it comes to a packet that moves it by no byte: with each fuel it
  -- hands this packet on until the fuel, or the callback, ends.
  pub record Stalls (data' : Text) (w : W) : Type 0 where
    pub at : W
    pub done : ℕ
    pub handled : Handles data' w done at
    pub empty : IsEmptyTotal (drop done data')
    pub result : (fuel : ℕ) → (why : Fault) × (read_packets handle fuel data' w ≡ fault why)

  stall-here :
      (data' : Text)
      → IsEmptyTotal data'
      → (fuel : ℕ) (w : W) → (why : Fault) × (read_packets handle fuel data' w ≡ fault why)
  unfolding read_packets
  stall-here data' empty zero w = (endless, refl)
  stall-here data' empty (suc fuel) w = elim (Result-cases (handle (front data') w)) [
    | inr (why, e) ↦ (why, ground (arith, e, empty))
    | inl (w', e) ↦
        let (why, ih) = stall-here data' empty fuel w' in (why, ground (arith, e, empty, ih))
  ]

  -- One round of the loop, at data that hold a packet.
  round :
      (fuel : ℕ) (data' : Text) (w w' : W)
      → packet_header_size ≤ length data'
      → packet_total data' ≤ length data'
      → handle (front data') w ≡ ok w'
      → read_packets handle (suc fuel) data' w
        ≡ read_packets handle fuel (drop (packet_total data') data') w'
  unfolding read_packets
  round fuel data' w w' long whole e = ground (arith, e, long, whole)

  read_packets-Stops :
      (fuel : ℕ) (data' : Text) (w : W) → IsPartial data' → Stops (suc fuel) data' w
  unfolding read_packets
  read_packets-Stops fuel data' w partial = record {
    after = w;
    done = 0;
    handled = none_yet;
    result = ground (arith, partial);
    partial = partial;
  }

  read_packets-Faults :
      (fuel : ℕ) (data' : Text) (w : W) (why : Fault)
      → packet_header_size ≤ length data'
      → packet_total data' ≤ length data'
      → handle (front data') w ≡ fault why
      → Faults (suc fuel) data' w
  unfolding read_packets
  read_packets-Faults fuel data' w why long whole e = record {
    at = w;
    done = 0;
    why = why;
    handled = none_yet;
    refused = e;
    result = ground (arith, e, long, whole);
  }

  -- How the loop ends, or that it does not.
  abbrev pub Ending : ℕ → Text → W → Type 0
  Ending fuel data' w = Stops fuel data' w ⊎ Faults fuel data' w ⊎ Stalls data' w

  round-ends :
      (fuel : ℕ) (data' : Text) (w w' : W)
      → packet_header_size ≤ length data'
      → packet_total data' ≤ length data'
      → handle (front data') w ≡ ok w'
      → Ending fuel (drop (packet_total data') data') w'
      → Ending (suc fuel) data' w
  unfolding read_packets
  round-ends fuel data' w w' long whole e (inl s) =
      let same = drop-drop (packet_total data') s.done data' in
      inl (record {
        after = s.after;
        done = packet_total data' + s.done;
        handled = next long whole e s.handled;
        result = round fuel data' w w' long whole e ∙ s.result ∙ ap (λ r. ok (s.after, r)) same;
        partial = subst IsPartial same s.partial;
      })
  round-ends fuel data' w w' long whole e (inr (inl s)) = inr (
      inl (record {
        at = s.at;
        done = packet_total data' + s.done;
        why = s.why;
        handled = next long whole e s.handled;
        refused =
            subst (λ d. handle (front d) s.at ≡ fault s.why)
              (drop-drop (packet_total data') s.done data') s.refused;
        result = round fuel data' w w' long whole e ∙ s.result;
      }))
  round-ends fuel data' w w' long whole e (inr (inr s)) = inr (
      inr (record {
        at = s.at;
        done = packet_total data' + s.done;
        handled = next long whole e s.handled;
        empty = subst IsEmptyTotal (drop-drop (packet_total data') s.done data') s.empty;
        result = λ fuel'. stalled fuel';
      }))
    where
      stalled : (fuel' : ℕ) → (why : Fault) × (read_packets handle fuel' data' w ≡ fault why)
      stalled zero = (endless, refl)
      stalled (suc fuel') =
          let (why, r) = s.result fuel' in (why, round fuel' data' w w' long whole e ∙ r)

  -- If the fuel exceeds the bytes at hand, the loop comes to its end, with data at whose front
  -- there is no whole packet, or with the fault in which the callback ends on the next packet, or
  -- it meets a packet whose size and header add up to zero in 32 bits, and then, with whatever
  -- fuel, it does not return. In each case the packets before have been handed on in their order.
  pub read_packets-ends :
      (fuel : ℕ) (data' : Text) (w : W) → length data' < fuel → Ending fuel data' w
  read_packets-ends zero data' w below = absurd (omega arith)
  read_packets-ends (suc fuel) data' w below =
      elim (Bool-cases (ltb (length data') packet_header_size)) [
        | inl short ↦ inl (read_packets-Stops fuel data' w (inl (ground (arith, short))))
        | inr long ↦ elim (Bool-cases (ltb (length data') (packet_total data'))) [
          | inl part ↦ inl (read_packets-Stops fuel data' w (inr (ground (arith, part))))
          | inr whole ↦ elim (Bool-cases (packet_total data' == 0)) [
            | inl empty ↦
                let stalls : IsEmptyTotal data' = (ground (arith, long), ground (arith, empty)) in
                inr (
                  inr (record {
                    at = w;
                    done = 0;
                    handled = none_yet;
                    empty = stalls;
                    result = λ n. stall-here data' stalls n w;
                  }))
            | inr moves ↦ elim (Result-cases (handle (front data') w)) [
              | inr (why, e) ↦ inr (
                  inl (
                    read_packets-Faults fuel data' w why (ground (arith, long))
                      (ground (arith, whole)) e))
              | inl (w', e) ↦
                  round-ends fuel data' w w' (ground (arith, long)) (ground (arith, whole)) e (
                    read_packets-ends fuel (drop (packet_total data') data') w'
                      (ground (arith, length-drop (packet_total data') data', long, moves, below)))
            ]
          ]
        ]
      ]
