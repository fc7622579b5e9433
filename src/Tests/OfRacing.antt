-- ===== src/Tests/OfRacing.antt =====
-- A test of two logins under one name at the same time.
use jbjb.Base.{ℕ, ◌≡◌, refl, true, List, [], ◌∷◌, ok, none, some, arith}
use jbjb.Base.Int.{◌+ℤ◌}
use jbjb.Base.Texts.{Text, codes, find, assign, text_eq}
use jbjb.Db.Connections.{PoolInv}
use jbjb.Db.Query.{c_str, format, column, user_columns}
use jbjb.Db.{
  get_query_user_info, get_user_friends_list, wait_connection, get_connection, release_connection,
  query_on, user_info_of, friends_of,
}
use jbjb.Friends.{lobby_login_process, join_user, join_success, admit, add_id_in_user_map, send}
use jbjb.Protocol.Status.{login}
use jbjb.Server.Lifecycle.{stat_of}
use jbjb.Server.Racing.{login_race}
use jbjb.Server.{close_session}
use jbjb.Session.{send_message, wait_send}
use jbjb.Tests.{outside, lobby, user_found}
use jbjb.World.{External, World}

program : Unit {0}
unfolding find assign text_eq c_str format column user_columns get_query_user_info
    get_user_friends_list wait_connection get_connection release_connection query_on user_info_of
    friends_of join_user join_success admit add_id_in_user_map send send_message wait_send ◌+ℤ◌
program = tt

abbrev x : External (List (Text × Text)) ℕ
x = outside user_found

-- Redis knows two tokens of "eve".
abbrev tokens : World (List (Text × Text)) ℕ
tokens = record lobby { redis = (codes "t1", codes "eve") ∷ (codes "t2", codes "eve") ∷ [] }

abbrev one_in :
    (w' : World (List (Text × Text)) ℕ) × (join_user x 0 (codes "t1") (codes "eve") tokens
      ≡ ok (w', true))
unfolding program
one_in = (_, refl)

abbrev both_in :
    (w' : World (List (Text × Text)) ℕ) × (join_user x 1 (codes "t2") (codes "eve") one_in.0
      ≡ ok (w', true))
unfolding program
both_in = (_, refl)

tokens-PoolInv : PoolInv tokens
tokens-PoolInv = record { free = omega arith; indices = (omega arith, (omega arith, tt)) }

login_race_example :
    (lobby_login_process x 0 (codes "t1") tokens ≡ join_user x 0 (codes "t1") (codes "eve") tokens)
    × (lobby_login_process x 1 (codes "t2") tokens
        ≡ join_user x 1 (codes "t2") (codes "eve") tokens)
    × (stat_of 0 both_in.0 ≡ login)
    × (stat_of 1 both_in.0 ≡ login)
    × ((both_in.0.sessions 0).user_id ≡ codes "eve")
    × ((both_in.0.sessions 1).user_id ≡ codes "eve")
    × (find (codes "eve") both_in.0.user_id_map ≡ some 0)
    × (w₃ : World (List (Text × Text)) ℕ) × (close_session x 1 both_in.0 ≡ ok w₃)
    × (find (codes "eve") w₃.user_id_map ≡ none)
    × (stat_of 0 w₃ ≡ login)
    × ((w₃.sessions 0).user_id ≡ codes "eve")
unfolding program
login_race_example =
    login_race x 0 1 (codes "t1") (codes "t2") (codes "eve") tokens one_in.0 both_in.0 (omega arith)
      refl refl refl refl refl tokens-PoolInv (omega arith, omega arith) one_in.1 both_in.1 refl
      refl
