-- ===== src/Client/Menu.antt =====
-- The menu of client_main.cpp: a command, the word that is typed for it, and the token that the
-- last login left behind.
use jbjb.Base.{
  ℕ, Bool, not, ◌&&◌, uncaught_exception, ◌≡◌, false, true, [], ◌∷◌, ◌++◌, length, ltb,
  if◌then◌else◌, Result, Fault, ok, fault, buffer_overflow, ◌>>=◌,
}
use jbjb.Base.Texts.{Text}
use jbjb.Client.Messages.{
  ClientMessage, join_req, logout_ntf, play_rank_game_req, play_friends_game_req,
}
use jbjb.Client.Messages
use jbjb.Client.Matching.{check_rating}
use jbjb.Client.{
  Client, Generated, client_packet, post_join_message, post_logout_message, post_play_message,
  post_play_with_friends_message, post_search_message, post_add_message, post_del_message,
  post_accept_message, post_deny_message,
}

pub data Menu : Type 0 where
  lobby_login lobby_logout play play_with_friends search_for add del accept deny : Menu

abbrev pub menu_code : Menu → ℕ
menu_code lobby_login = 1
menu_code lobby_logout = 2
menu_code play = 3
menu_code play_with_friends = 4
menu_code search_for = 5
menu_code add = 6
menu_code del = 7
menu_code accept = 8
menu_code deny = 9

-- The size of the arrays `user_id` and `token`.
abbrev pub word_size : ℕ
word_size = 200

-- `std::cin >> word`: the word and the zero behind it have to fit.
pub read_word : Text → Result Text
read_word word = if ltb (length word) word_size then ok word else fault buffer_overflow

abbrev pub is_connected : Client → Bool
is_connected c = c.is_open && not c.is_connecting

-- `socket().shutdown(…)`, which throws where there is no connection, and `socket().close()`.
shutdown_and_close : Client → Result Client
shutdown_and_close c =
    if is_connected c then ok (record c { is_open = false }) else fault uncaught_exception

-- The word that is in `token` after a command, and whether the socket is open.
abbrev pub token_after : Menu → Text → Text → Text
token_after lobby_login word token = word
token_after _ word token = token

abbrev pub open_after : Menu → Bool → Bool
open_after lobby_logout is_open = false
open_after _ is_open = is_open

-- Whether a command ends without a fault: the word fits, and there is a connection to shut down.
abbrev pub can_choose : Menu → Text → Client → Bool
can_choose lobby_logout word c = is_connected c
can_choose play word c = true
can_choose accept word c = true
can_choose deny word c = true
can_choose _ word c = ltb (length word) word_size

-- What a command leaves as it was.
pub record Same (c c' : Client) : Type 0 where
  pub battle_history : c'.battle_history ≡ c.battle_history
  pub win : c'.win ≡ c.win
  pub lose : c'.lose ≡ c.lose
  pub rating : c'.rating ≡ c.rating
  pub user_id : c'.user_id ≡ c.user_id
  pub target_id : c'.target_id ≡ c.target_id
  pub is_connecting : c'.is_connecting ≡ c.is_connecting

module _ (g : Generated) where
  pub choose : Menu → Text → Text → Client → Result (Client × Text)
  choose lobby_login word token c =
      read_word word >>= λ token'. ok (post_join_message g token' c, token')
  choose lobby_logout word token c =
      shutdown_and_close (post_logout_message g token c) >>= λ c'. ok (c', token)
  choose play word token c = ok (post_play_message g c, token)
  choose play_with_friends word token c =
      read_word word >>= λ user_id. ok (post_play_with_friends_message g user_id c, token)
  choose search_for word token c =
      read_word word >>= λ user_id. ok (post_search_message g user_id c, token)
  choose add word token c = read_word word >>= λ user_id. ok (post_add_message g user_id c, token)
  choose del word token c = read_word word >>= λ user_id. ok (post_del_message g user_id c, token)
  choose accept word token c = ok (post_accept_message g c, token)
  choose deny word token c = ok (post_deny_message g c, token)

  -- The message that a command stands for.
  abbrev pub message_for : Menu → Text → Text → Client → ClientMessage
  message_for lobby_login word token c = join_req word
  message_for lobby_logout word token c = logout_ntf token
  message_for play word token c =
      play_rank_game_req c.battle_history c.win c.lose (check_rating c.rating) c.user_id
  message_for play_with_friends word token c = play_friends_game_req Messages.apply word
  message_for search_for word token c = Messages.friends_req Messages.search_for word
  message_for add word token c = Messages.friends_req Messages.add word
  message_for del word token c = Messages.friends_req Messages.del word
  message_for accept word token c = play_friends_game_req Messages.accept c.target_id
  message_for deny word token c = play_friends_game_req Messages.deny c.target_id

  pub record Chosen (menu : Menu) (word token : Text) (c : Client) : Type 0 where
    pub client : Client
    pub returned : choose menu word token c ≡ ok (client, token_after menu word token)
    pub queue :
        client.send_data_que
        ≡ c.send_data_que ++ client_packet g.serialize (message_for menu word token c) ∷ []
    pub same : Same c client
    pub is_open : client.is_open ≡ open_after menu c.is_open

  -- What is promised of a command that can be done, or cannot.
  abbrev pub Outcome : Bool → Menu → Text → Text → Client → Type 0
  Outcome true menu word token c = Chosen menu word token c
  Outcome false menu word token c = (why : Fault) × (choose menu word token c ≡ fault why)
