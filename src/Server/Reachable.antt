-- ===== src/Server/Reachable.antt =====
-- The steps of the server, and the numbers of its sessions along them.
use jbjb.Base.{ℕ, ◌<◌, ◌≡◌, refl, subst, sym, inl, inr, Bool, false, [], ok, ok_inj}
use jbjb.Protocol.Status.{wait, is_status}
use jbjb.Server.{
  process_packet, rematch, handle_receive_error, ReceiveError, eof, connection_reset, other, init,
  wait_accept, handle_accept, close_session,
}
use jbjb.World.{Session, External, World}
use jbjb.Server.Flow.{Flow, Flow-refl, Flow-trans, Flow-NumbersInv, Kept-Flow}
use jbjb.Server.Flow.Accepts.{waits-Flow, accepts-Flow}
use jbjb.Server.Flow.Closes.{closes-Flow}
use jbjb.Server.Lifecycle.Packets.{
  Handled, process_packet-Handled, rematch-Progress, handle_write-Progress,
}
use jbjb.Server.Lifecycle.{Progress}
use jbjb.Server.Lifecycle.Sessions.{quiet-Progress}
use jbjb.Session.{handle_write}
use jbjb.World.Access.{with_session}
use jbjb.Base.Texts.{Text}
use jbjb.Server.Numbers.{count, init-places, NumbersInv}

-- What a read has left over is moved to the front of the buffer.
abbrev pub store : Text → Session → Session
store rest s = record s { packet_buffer = rest }

module _ {S D : Type 0} where
  pub store-Progress :
      (n i : ℕ) (rest : Text) (w : World S D) → Progress n w (with_session i (store rest) w)
  store-Progress n i rest w = quiet-Progress n i (store rest) w refl refl

module _ {S D : Type 0} (x : External S D) where
  Handled-Flow : {w w' : World S D} (i : ℕ) → Handled x i w w' → NumbersInv w → Flow w w'
  Handled-Flow i (inl p) inv = Kept-Flow p.kept inv
  Handled-Flow {w} {w'} i (inr c) inv =
      let f = Kept-Flow c.before inv in
      Flow-trans f (closes-Flow x c.between w' i c.closed (Flow-NumbersInv f inv))

module _ {S D : Type 0} (x : External S D) (attempts : ℕ) where
  -- What can happen to the server, as far as it does not end in a fault: a wait for a connection
  -- and its end, a packet of a session, what its buffer keeps of a read, the
  -- end of a write, a timer, an error of a read, and a session that is closed.
  pub data Step : World S D → World S D → Type 0 where
    waits : {w w' : World S D} (b : Bool) → wait_accept w ≡ ok (w', b) → Step w w'
    accepts :
        {w w' : World S D} (i : ℕ) (error : Bool)
        → 0 < count i w.accepting
        → handle_accept i error w ≡ ok w'
        → Step w w'
    packet :
        {w w' : World S D} (i : ℕ) (p_data : Text)
        → process_packet x attempts i p_data w ≡ ok w'
        → Step w w'
    stored :
        {w w' : World S D} (i : ℕ) (rest : Text) → w' ≡ with_session i (store rest) w → Step w w'
    written :
        {w w' : World S D} (i : ℕ) (s : Session)
        → handle_write (w.sessions i) ≡ ok s
        → w' ≡ with_session i (λ _. s) w
        → Step w w'
    timer : {w w' : World S D} (i : ℕ) → rematch x attempts i w ≡ ok w' → Step w w'
    fails :
        {w w' : World S D} (error : ReceiveError) (i : ℕ)
        → handle_receive_error x attempts error i w ≡ ok w'
        → Step w w'
    closes : {w w' : World S D} (i : ℕ) → close_session x i w ≡ ok w' → Step w w'

  pub data Steps : World S D → World S D → Type 0 where
    stay : {w : World S D} → Steps w w
    after : {w w' w'' : World S D} → Steps w w' → Step w' w'' → Steps w w''

  -- The step is not a packet that is handed on for a session in WAIT. The loop of a read hands one
  -- on only behind a packet that has closed the session.
  abbrev pub NotStray : {w w' : World S D} → Step w w' → Type 0
  NotStray {w} (packet i p_data e) = is_status (w.sessions i).stat wait ≡ false
  NotStray (waits b e) = Unit
  NotStray (accepts i error under e) = Unit
  NotStray (stored i rest same) = Unit
  NotStray (written i s e same) = Unit
  NotStray (timer i e) = Unit
  NotStray (fails error i e) = Unit
  NotStray (closes i e) = Unit

  abbrev pub NoneStray : {w w' : World S D} → Steps w w' → Type 0
  NoneStray stay = Unit
  NoneStray (after before step) = NoneStray before × NotStray step

  fails-Flow :
      (error : ReceiveError) (w w' : World S D) (i : ℕ)
      → handle_receive_error x attempts error i w ≡ ok w'
      → NumbersInv w
      → Flow w w'
  unfolding handle_receive_error
  fails-Flow eof w w' i e inv = closes-Flow x w w' i e inv
  fails-Flow connection_reset w w' i e inv = closes-Flow x w w' i e inv
  fails-Flow other w w' i e inv = subst (Flow w) (ok_inj e) (Flow-refl inv)

  Step-Flow : {w w' : World S D} (step : Step w w') → NotStray step → NumbersInv w → Flow w w'
  Step-Flow {w} {w'} (waits b e) _ inv = waits-Flow w w' b e inv
  Step-Flow {w} {w'} (accepts i error under e) _ inv = accepts-Flow w w' i error under e inv
  Step-Flow {w} {w'} (packet i p e) live inv =
      Handled-Flow x i (process_packet-Handled x attempts i p w w' live e) inv
  Step-Flow {w} (stored i rest same) _ inv =
      subst (Flow w) (sym same) (Kept-Flow (store-Progress 0 i rest w).kept inv)
  Step-Flow {w} (written i s e same) _ inv =
      subst (Flow w) (sym same) (Kept-Flow (handle_write-Progress i s w e).kept inv)
  Step-Flow {w} {w'} (timer i e) _ inv = Kept-Flow (rematch-Progress x attempts i w w' e).kept inv
  Step-Flow {w} {w'} (fails error i e) _ inv = fails-Flow error w w' i e inv
  Step-Flow {w} {w'} (closes i e) _ inv = closes-Flow x w w' i e inv

  pub Steps-Flow :
      {w w' : World S D} (steps : Steps w w') → NoneStray steps → NumbersInv w → Flow w w'
  Steps-Flow stay _ inv = Flow-refl inv
  Steps-Flow (after before step) (live, live') inv =
      let f = Steps-Flow before live inv in
      Flow-trans f (Step-Flow step live' (Flow-NumbersInv f inv))

  pub Steps-NumbersInv :
      {w w' : World S D} (steps : Steps w w') → NoneStray steps → NumbersInv w → NumbersInv w'
  Steps-NumbersInv steps live inv = Flow-NumbersInv (Steps-Flow steps live inv) inv

  -- When the server has been set up, no number is in two places.
  pub start-NumbersInv :
      (w : World S D)
      → w.session_queue ≡ []
      → w.accepting ≡ []
      → w.session_queue_locked ≡ false
      → NumbersInv (init w)
  unfolding init
  start-NumbersInv w e e' unlocked = record {
    apart = λ k. init-places k w e e';
    unlocked = unlocked;
  }

  -- From a server that has just been set up, with its lock free, no sequence of steps without a
  -- fault, and in which no packet is handed on for a session in WAIT, brings the number of a
  -- session into two places at once: the queue of free ones, a wait for a connection, and a session
  -- with a status other than WAIT. The steps are waits for connections and their ends, packets,
  -- what the buffers keep of reads, ends of writes, timers, errors of reads and closed sessions.
  pub init-NumbersInv :
      (w w' : World S D)
      → w.session_queue ≡ []
      → w.accepting ≡ []
      → w.session_queue_locked ≡ false
      → (steps : Steps (init w) w') → NoneStray steps
      → NumbersInv w'
  init-NumbersInv w w' e e' unlocked steps live =
      Steps-NumbersInv steps live (start-NumbersInv w e e' unlocked)
