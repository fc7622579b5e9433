-- ===== src/Protocol/Messages.antt =====
-- The messages of channel_protobuf.pb.h, with the fields that the server reads and writes, and the
-- names that protocol.h gives them.
use jbjb.Base.{ℕ, Bool, Option, List}
use jbjb.Base.Int.{ℤ}
use jbjb.Base.Texts.{Text}

pub data MessageType : Type 0 where
  friends_req friends_ans play_rank_req play_rank_ans play_friends_rel match_complete : MessageType
  match_confirm error_msg join_req join_ans logout_req logout_ans : MessageType

abbrev pub type_code : MessageType → ℕ
type_code friends_req = 0
type_code friends_ans = 1
type_code play_rank_req = 2
type_code play_rank_ans = 3
type_code play_friends_rel = 4
type_code match_complete = 5
type_code match_confirm = 6
type_code error_msg = 7
type_code join_req = 8
type_code join_ans = 9
type_code logout_req = 10
type_code logout_ans = 11

pub data FriendsRequestType : Type 0 where
  add del search_for : FriendsRequestType

pub data FriendsAnswerType : Type 0 where
  add_success add_fail del_success del_fail search_success search_fail : FriendsAnswerType

pub data RelayType : Type 0 where
  apply accept deny : RelayType

pub record GameHistory : Type 0 where
  pub rating_score : ℤ
  pub total_games : ℤ
  pub win : ℤ
  pub lose : ℤ

pub record UserInfo : Type 0 where
  pub game_history : GameHistory
  pub id : Text

-- The field `history` of a join response: absent, present with none of its fields set, or filled.
pub data JoinHistory : Type 0 where
  absent unset : JoinHistory
  filled : GameHistory → JoinHistory

-- A field that may be absent is an `Option`; the message bodies without fields have none here.
pub data Message : Type 0 where
  friends_request : FriendsRequestType → Text → Message
  friends_response : FriendsAnswerType → UserInfo → Option Bool → Message
  match_with_friends_relay : RelayType → Text → Message
  match_request : Message
  match_response : Bool → Message
  join_request : Text → Message
  join_response : Bool → JoinHistory → List Text → Message
  match_complete_report : Text → UserInfo → Message
  match_confirm_request : Message
  error_report : Text → Message
  logout_request : Message
  logout_response : Message

abbrev pub message_type_of : Message → MessageType
message_type_of (friends_request _ _) = friends_req
message_type_of (friends_response _ _ _) = friends_ans
message_type_of (match_with_friends_relay _ _) = play_friends_rel
message_type_of match_request = play_rank_req
message_type_of (match_response _) = play_rank_ans
message_type_of (join_request _) = join_req
message_type_of (join_response _ _ _) = join_ans
message_type_of (match_complete_report _ _) = match_complete
message_type_of match_confirm_request = match_confirm
message_type_of (error_report _) = error_msg
message_type_of logout_request = logout_req
message_type_of logout_response = logout_ans
