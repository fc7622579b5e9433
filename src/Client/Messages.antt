-- ===== src/Client/Messages.antt =====
-- The messages of the test client, and their numbers in its packet.pb.h.
use jbjb.Base.{ℕ}
use jbjb.Base.Int.{ℤ}
use jbjb.Base.Texts.{Text}
use jbjb.Match.Rating.{Rating}

pub data MessageId : Type 0 where
  friends_req_id friends_ans_id play_rank_id play_friends_id match_complete_id : MessageId
  error_id join_req_id join_ans_id logout_id : MessageId

abbrev pub id_code : MessageId → ℕ
id_code friends_req_id = 0
id_code friends_ans_id = 1
id_code play_rank_id = 2
id_code play_friends_id = 3
id_code match_complete_id = 4
id_code error_id = 5
id_code join_req_id = 6
id_code join_ans_id = 7
id_code logout_id = 8

pub data FriendsReq : Type 0 where
  add del search_for : FriendsReq

pub data PlayFlag : Type 0 where
  apply accept deny : PlayFlag

-- The messages that the client sends.
pub data ClientMessage : Type 0 where
  join_req : Text → ClientMessage
  logout_ntf : Text → ClientMessage
  play_rank_game_req : ℤ → ℤ → ℤ → Rating → Text → ClientMessage
  play_friends_game_req : PlayFlag → Text → ClientMessage
  friends_req : FriendsReq → Text → ClientMessage

abbrev pub message_id_of : ClientMessage → MessageId
message_id_of (join_req _) = join_req_id
message_id_of (logout_ntf _) = logout_id
message_id_of (play_rank_game_req _ _ _ _ _) = play_rank_id
message_id_of (play_friends_game_req _ _) = play_friends_id
message_id_of (friends_req _ _) = friends_req_id
