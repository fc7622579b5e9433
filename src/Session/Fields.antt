-- ===== src/Session/Fields.antt =====
-- Sending a message, and the other fields of the session.
use jbjb.Base.{◌≡◌, [], ◌∷◌, ◌++◌, arith}
use jbjb.Protocol.Messages.{Message}
use jbjb.Base.Texts.{Text}
use jbjb.Protocol.{incode_message}
use jbjb.Session.{send_message, wait_send}
use jbjb.World.{Session}

-- `s'` is `s` with one more packet to send.
pub record Sent (packet : Text) (s s' : Session) : Type 0 where
  pub queue : s'.send_data_queue ≡ s.send_data_queue ++ packet ∷ []
  pub rating_score : s'.rating_score ≡ s.rating_score
  pub battle_history : s'.battle_history ≡ s.battle_history
  pub win : s'.win ≡ s.win
  pub lose : s'.lose ≡ s.lose
  pub friends_count : s'.friends_count ≡ s.friends_count
  pub user_id : s'.user_id ≡ s.user_id
  pub token : s'.token ≡ s.token
  pub room_key : s'.room_key ≡ s.room_key
  pub stat : s'.stat ≡ s.stat
  pub is_open : s'.is_open ≡ s.is_open
  pub packet_buffer : s'.packet_buffer ≡ s.packet_buffer
  pub match_timer : s'.match_timer ≡ s.match_timer

pub send_message-Sent :
    (serialize : Message → Text) (m : Message) (s : Session)
    → Sent (incode_message serialize m) s (send_message serialize m s)
unfolding send_message wait_send
send_message-Sent serialize m s = ground arith
