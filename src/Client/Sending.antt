-- ===== src/Client/Sending.antt =====
-- The client's queue of packets to send, beside the queue of a session of the server.
use jbjb.Base.{
  ℕ, ◌≡◌, refl, ◌≢◌, false, Option, none, some, List, [], ◌∷◌, arith, Result, ok, fault, ◌>>=◌,
}
use jbjb.Base.Texts.{Text}
use jbjb.Client.{Client, post_send, send_handle, send_next}
use jbjb.Protocol.Status.{Status, logout, is_status, is_status_iff}
use jbjb.Session.{wait_send, handle_write, write_next}
use jbjb.World.{Session}

-- A packet with its size to send, or the end of the write that is under way.
abbrev pub Event : Type 0
Event = Option (Text × ℕ)

pub run_client : List Event → Client → Result Client
unfolding send_handle post_send
run_client [] c = ok c
run_client (some (data', n_size) ∷ events) c = run_client events (post_send false data' n_size c)
run_client (none ∷ events) c = send_handle c >>= run_client events

pub run_session : List Event → Session → Result Session
unfolding handle_write wait_send
run_session [] s = ok s
run_session (some (data', n_size) ∷ events) s = run_session events (wait_send false n_size data' s)
run_session (none ∷ events) s = handle_write s >>= run_session events

is_status-false : (a b : Status) → a ≢ b → is_status a b ≡ false
is_status-false a b ne = ground (arith, ne, is_status_iff a b)

-- Client and session hold the same packets, and have written the same.
pub record SameQueue (c : Client) (s : Session) : Type 0 where
  pub queue : c.send_data_que ≡ s.send_data_queue
  pub written : c.written ≡ s.written
  pub live : s.stat ≢ logout

abbrev pub Agree : Result Client → Result Session → Type 0
Agree (ok c) (ok s) = SameQueue c s
Agree (fault e) (fault f) = e ≡ f
Agree _ _ = ⊥

post_send-SameQueue :
    (data' : Text) (n_size : ℕ) (c : Client) (s : Session)
    → SameQueue c s
    → SameQueue (post_send false data' n_size c) (wait_send false n_size data' s)
unfolding post_send wait_send
post_send-SameQueue data' n_size c s h = ground (arith, h)

send_next-SameQueue :
    (rest : List Text) (c : Client) (s : Session)
    → SameQueue c s
    → SameQueue (send_next c rest) (write_next s rest)
unfolding send_next write_next post_send wait_send
send_next-SameQueue [] c s h = record { queue = refl; written = h.written; live = h.live }
send_next-SameQueue (p ∷ rest) c s h = ground (arith, h)

-- The end of a write, on both sides.
complete-Agree :
    (events : List Event) (c : Client) (s : Session) (queue : List Text)
    → s.send_data_queue ≡ queue
    → SameQueue c s
    → ((c' : Client) (s' : Session)
        → SameQueue c' s'
        → Agree (run_client events c') (run_session events s'))
    → Agree (send_handle c >>= run_client events) (handle_write s >>= run_session events)
unfolding send_handle handle_write send_next write_next
complete-Agree events c s [] e h next = rw (h.queue, e) refl
complete-Agree events c s (p ∷ rest) e h next =
    rw (h.queue, e, is_status-false s.stat logout h.live)
      (next (send_next c rest) (write_next s rest) (send_next-SameQueue rest c s h))

-- From the same queue, the client and a session that is not in LOGOUT do the same with any
-- sequence of packets and completed writes: they end with the same queue and the same writes, or
-- in the same fault.
pub run_client-Agree :
    (events : List Event) (c : Client) (s : Session)
    → SameQueue c s
    → Agree (run_client events c) (run_session events s)
unfolding run_client run_session
run_client-Agree [] c s h = h
run_client-Agree (some (data', n_size) ∷ events) c s h =
    run_client-Agree events (post_send false data' n_size c) (wait_send false n_size data' s)
      (post_send-SameQueue data' n_size c s h)
run_client-Agree (none ∷ events) c s h =
    complete-Agree events c s s.send_data_queue refl h (run_client-Agree events)
