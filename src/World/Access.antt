-- ===== src/World/Access.antt =====
-- Calls on one session, and on one matching queue, of the server's state.
use jbjb.Base.{ℕ, List}
use jbjb.Base.Update.{update}
use jbjb.World.{Session, World}

module _ {S D : Type 0} where
  -- A method of the session with the number `i`.
  abbrev pub with_session : ℕ → (Session → Session) → World S D → World S D
  with_session i method w = record w { sessions = update w.sessions i (method (w.sessions i)) }

  abbrev pub set_que : ℕ → List ℕ → World S D → World S D
  set_que r que w = record w { matching_que = update w.matching_que r que }
