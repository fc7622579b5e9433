-- ===== src/Session.antt =====
-- smilegate/project/GameChannelServer/server_session.h and server_session.cpp: the accessors, the
-- queue of packets to send, and the timer. Receiving is in the child Receive.
pub mod Receive
pub mod Fields
pub mod Sending
pub mod Framing
pub mod Chunks
pub mod Wrap
pub mod Ending
use jbjb.Base.{
  ℕ, ◌+◌, Bool, true, false, not, ◌&&◌, Option, none, some, List, [], ◌∷◌, ◌++◌, length, ltb,
  if◌then◌else◌, Result, ok, fault, empty_front,
}
use jbjb.Base.Int.{ℤ, pos, ltb_ℤ}
use jbjb.Base.Texts.{Text}
use jbjb.Protocol.{packet_header_size, header_size, incode_message}
use jbjb.Protocol.Messages.{Message}
use jbjb.Protocol.Status.{Status, is_status, logout}
use jbjb.World.{Session}

-- `user::set_user_info`.
abbrev pub set_user_info : ℤ → ℤ → ℤ → ℤ → Text → Session → Session
set_user_info rating battle_history win lose user_id s = record s {
  rating_score = rating;
  battle_history = battle_history;
  win = win;
  lose = lose;
  user_id = user_id;
}

abbrev pub set_friends_count : ℤ → Session → Session
set_friends_count count s = record s { friends_count = count }

abbrev pub set_token : Text → Session → Session
set_token token s = record s { token = token }

abbrev pub set_room_key : Text → Session → Session
set_room_key room_key s = record s { room_key = room_key }

abbrev pub set_status : Status → Session → Session
set_status stat s = record s { stat = stat }

-- `wait_send(immediately, send_data_size, send_data)`.
unfoldable pub wait_send : Bool → ℕ → Text → Session → Session
wait_send immediately send_data_size send_data s =
    let queued = if immediately then s.send_data_queue else s.send_data_queue ++ send_data ∷ [] in
    if not immediately && ltb 1 (length queued)
    then record s { send_data_queue = queued }
    else record s {
      send_data_queue = queued;
      written = s.written ++ (send_data, send_data_size) ∷ [];
    }

-- `wait_send(false, message.ByteSize() + packet_header_size, incode_message(message))`, the form of
-- every call outside the class.
unfoldable pub send_message : (Message → Text) → Message → Session → Session
send_message serialize message =
    wait_send false (length (serialize message) + packet_header_size)
      (incode_message serialize message)

-- The tail of `handle_write`, on the queue that is left.
unfoldable pub write_next : Session → List Text → Session
write_next s [] = record s { send_data_queue = [] }
write_next s (p_data ∷ rest) =
    wait_send true (header_size p_data + packet_header_size) p_data
      (record s { send_data_queue = p_data ∷ rest })

-- `handle_write`: it looks neither at the error nor at the count of bytes. To take the front of an
-- empty queue is undefined.
unfoldable pub handle_write : Session → Result Session
handle_write s = elim s.send_data_queue [
  | [] ↦ fault empty_front
  | _ ∷ rest ↦
      ok (if is_status s.stat logout then record s { send_data_queue = [] } else write_next s rest)
]

-- `session::init`, for a session that has just been accepted.
unfoldable pub init : Session → Session
init s = record s { packet_buffer = []; send_data_queue = [] }

-- `control_timer_rematch`.
unfoldable pub control_timer_rematch : ℤ → Bool → Session → Session
control_timer_rematch sec is_set s =
    if is_set && ltb_ℤ (pos 0) sec then record s { match_timer = some sec } else s
