-- ===== src/Tests/OfRejoining.antt =====
-- A test of two logins in one session.
use jbjb.Base.{ℕ, ◌≡◌, refl, true, false, some, List, [], ◌∷◌, ok, subst, arith}
use jbjb.Base.Int.{◌+ℤ◌}
use jbjb.Base.Texts.{Text, codes, find, assign, text_eq}
use jbjb.Db.Connections.{PoolInv}
use jbjb.Db.Query.{c_str, format, column, user_columns}
use jbjb.Db.{
  get_query_user_info, get_user_friends_list, wait_connection, get_connection, release_connection,
  query_on, user_info_of, friends_of,
}
use jbjb.Friends.Lobby.{NameFits}
use jbjb.Friends.{
  lobby_login_process, find_id_in_user_map, join_user, join_success, join_refused, admit,
  add_id_in_user_map, send,
}
use jbjb.Protocol.Status.{wait}
use jbjb.Server.Lifecycle.{stat_of}
use jbjb.Server.Rejoining.{login_twice}
use jbjb.Server.{close_session}
use jbjb.Session.{send_message, wait_send}
use jbjb.Tests.{outside, lobby, user_found}
use jbjb.World.{External, World}

program : Unit {0}
unfolding find assign text_eq c_str format column user_columns get_query_user_info
    get_user_friends_list wait_connection get_connection release_connection query_on user_info_of
    friends_of lobby_login_process find_id_in_user_map join_user join_success admit
    add_id_in_user_map send send_message wait_send ◌+ℤ◌
program = tt

abbrev x : External (List (Text × Text)) ℕ
x = outside user_found

-- Redis knows two tokens, of "eve" and of "fay".
abbrev tokens : World (List (Text × Text)) ℕ
tokens = record lobby { redis = (codes "t1", codes "eve") ∷ (codes "t2", codes "fay") ∷ [] }

abbrev as_eve :
    (w' : World (List (Text × Text)) ℕ) × (lobby_login_process x 0 (codes "t1") tokens
      ≡ ok (w', true))
unfolding program
as_eve = (_, refl)

abbrev as_fay :
    (w' : World (List (Text × Text)) ℕ) × (lobby_login_process x 0 (codes "t2") as_eve.0
      ≡ ok (w', true))
unfolding program
as_fay = (_, refl)

tokens-PoolInv : PoolInv tokens
tokens-PoolInv = record { free = omega arith; indices = (omega arith, (omega arith, tt)) }

as_eve-PoolInv : PoolInv as_eve.0
unfolding program
as_eve-PoolInv = record { free = omega arith; indices = (omega arith, (omega arith, tt)) }

eve_fits : (id : Text) → find (codes "t1") tokens.redis ≡ some id → NameFits id
unfolding program
eve_fits id e = subst NameFits same (omega arith, omega arith)
  where
    same : codes "eve" ≡ id
    same = cc

fay_fits : (id : Text) → find (codes "t2") as_eve.0.redis ≡ some id → NameFits id
unfolding program
fay_fits id e = subst NameFits same (omega arith, omega arith)
  where
    same : codes "fay" ≡ id
    same = cc

login_twice_example :
    (id : Text) × (w₃ : World (List (Text × Text)) ℕ) × (close_session x 0 as_fay.0 ≡ ok w₃)
    × (find (codes "t1") tokens.redis ≡ some id)
    × (stat_of 0 w₃ ≡ wait)
    × (find id w₃.user_id_map ≡ some 0)
    × ((k : ℕ) (packet : Text)
        → (w₃.sessions k).is_open ≡ true
        → find packet w₃.redis ≡ some id
        → lobby_login_process x k packet w₃ ≡ ok (join_refused x k w₃, false))
unfolding program
login_twice_example =
    login_twice x 0 (codes "t1") (codes "t2") tokens as_eve.0 as_fay.0 tokens-PoolInv as_eve-PoolInv
      eve_fits fay_fits as_eve.1 as_fay.1 refl refl
