-- ===== src/Client/Joining.antt =====
-- The client's messages at the server.
use jbjb.Base.{ℕ, ◌≡◌, refl, ◌≢◌, false, arith, ok}
use jbjb.Base.Texts.{Text}
use jbjb.Client.{client_packet}
use jbjb.Client.Messages.{
  ClientMessage, join_req, logout_ntf, play_rank_game_req, play_friends_game_req, friends_req,
  message_id_of, id_code,
}
use jbjb.Match.{process_match_confirm}
use jbjb.Protocol.Status.{Status, is_status, is_status_iff, match_complete}
use jbjb.Protocol.{header_type, read_uint32, write_uint32}
use jbjb.Server.{process_packet, dispatch, confirm}
use jbjb.World.{External, World}

-- The messages for joining and for playing with a friend.
abbrev pub IsLost : ClientMessage → Type 0
IsLost (join_req _) = Unit
IsLost (play_friends_game_req _ _) = Unit
IsLost _ = ⊥

pub header_type-client_packet :
    (serialize : ClientMessage → Text) (m : ClientMessage)
    → header_type (client_packet serialize m) ≡ id_code (message_id_of m)
unfolding header_type client_packet read_uint32 write_uint32
header_type-client_packet serialize m = ground arith

not_complete : (a : Status) → a ≢ match_complete → is_status a match_complete ≡ false
not_complete a ne = ground (arith, ne, is_status_iff a match_complete)

module _ {S D : Type 0} (x : External S D) (attempts : ℕ) where
  -- For a session that is not in MATCH_COMPLETE, the server leaves everything as it was when the
  -- client's message for joining, or for playing with a friend, arrives: no answer is sent.
  pub process_packet-IsLost :
      (serialize : ClientMessage → Text) (m : ClientMessage) (i : ℕ) (w : World S D)
      → IsLost m
      → (w.sessions i).stat ≢ match_complete
      → process_packet x attempts i (client_packet serialize m) w ≡ ok w
  unfolding process_packet dispatch confirm process_match_confirm
  process_packet-IsLost serialize (join_req token) i w lost ne =
      rw (header_type-client_packet serialize (join_req token), not_complete (w.sessions i).stat ne)
        refl
  process_packet-IsLost serialize (play_friends_game_req flag recv_id) i w lost ne =
      rw (header_type-client_packet serialize (play_friends_game_req flag recv_id)) refl
  process_packet-IsLost serialize (logout_ntf token) i w lost ne = absurd lost
  process_packet-IsLost serialize (play_rank_game_req b v l r u) i w lost ne = absurd lost
  process_packet-IsLost serialize (friends_req r u) i w lost ne = absurd lost
