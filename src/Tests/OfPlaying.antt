-- ===== src/Tests/OfPlaying.antt =====
-- Tests of a whole game by rank, and of the key of its room.
use jbjb.Base.{ℕ, ◌≡◌, refl, false, none, some, List, [], ◌∷◌, ok, arith, ◌>>=◌}
use jbjb.Base.Texts.{Text, codes, find, find-assign, find-erase, assign, text_eq, text_eq_iff}
use jbjb.Db.Connections.{PoolInv}
use jbjb.Db.Query.{c_str, format}
use jbjb.Db.{
  get_query_user_info, wait_connection, get_connection, release_connection, query_on, user_info_of,
}
use jbjb.Friends.RoomKeys.{room_key_deleted}
use jbjb.Friends.{lobby_login_process}
use jbjb.Match.Pairing.{HasFreshKey}
use jbjb.Match.RoomKey.{generate_room_key, hex_digit, hex_bytes, draw_room_key}
use jbjb.Match.{make_matching_and_send_complete, complete_both}
use jbjb.Protocol.Status.{match_complete}
use jbjb.Protocol.{header_type, read_uint32}
use jbjb.Server.Playing.{Played, rank_game}
use jbjb.Server.{process_packet}
use jbjb.Tests.{outside, lobby, nothing_found}
use jbjb.World.{External, World}

program : Unit {0}
unfolding find assign text_eq generate_room_key hex_digit hex_bytes draw_room_key
    make_matching_and_send_complete complete_both header_type read_uint32 get_query_user_info
    wait_connection get_connection release_connection query_on user_info_of c_str format
program = tt

abbrev Store : Type 0
Store = List (Text × Text)

abbrev x : External Store ℕ
x = outside nothing_found

fresh : HasFreshKey x 1 lobby
unfolding program
fresh = (0, omega arith, refl)

abbrev rank_request : Text
rank_request = 0 ∷ 0 ∷ 0 ∷ 0 ∷ 2 ∷ 0 ∷ 0 ∷ 0 ∷ []

abbrev confirmation : Text
confirmation = 0 ∷ 0 ∷ 0 ∷ 0 ∷ 6 ∷ 0 ∷ 0 ∷ 0 ∷ []

-- "ann" and "bob", who are in one class, play.
rank_game_example :
    (key : Text) × (w' : World Store ℕ) × ((process_packet x 1 1 rank_request lobby
        >>= process_packet x 1 2 rank_request
        >>= process_packet x 1 1 confirmation
        >>= process_packet x 1 2 confirmation)
      ≡ ok w')
    × Played x 1 2 key lobby w'
unfolding program
rank_game_example =
    rank_game x 1 1 2 rank_request rank_request confirmation confirmation lobby (omega arith) refl
      refl refl refl refl refl refl refl refl refl refl refl fresh

-- "ann" and "bob" are matched, and "cat" sends the key of their room.
abbrev matched : (w' : World Store ℕ) × (make_matching_and_send_complete x 1 1 2 lobby ≡ ok w')
unfolding program
matched = (_, refl)

abbrev unknown :
    (w' : World Store ℕ) × (get_query_user_info x (codes "0") matched.0 ≡ ok (w', none))
unfolding program
unknown = (_, refl)

matched-PoolInv : PoolInv matched.0
unfolding program
matched-PoolInv = record { free = omega arith; indices = (omega arith, (omega arith, tt)) }

stores :
    (s : Store) (key value : Text) → x.get_redis_kv (x.set_redis_kv s key value) key ≡ some value
stores s key value = ground (arith, find-assign key key value s, text_eq_iff key key)

deletes : (s : Store) (key : Text) → x.get_redis_kv (x.del_redis_key s key).0 key ≡ none
deletes s key = ground (arith, find-erase key key s, text_eq_iff key key)

room_key_deleted_example :
    (x.get_redis_kv matched.0.redis (matched.0.sessions 1).room_key ≡ some (codes "0"))
    × (w'' : World Store ℕ) × (lobby_login_process x 3 (matched.0.sessions 1).room_key matched.0
        ≡ ok (w'', false))
    × ((w''.sessions 1).stat ≡ match_complete)
    × ((w''.sessions 2).stat ≡ match_complete)
    × ((w''.sessions 1).room_key ≡ (w''.sessions 2).room_key)
    × (x.get_redis_kv w''.redis (w''.sessions 1).room_key ≡ none)
unfolding program
room_key_deleted_example =
    room_key_deleted x 1 1 2 3 (matched.0.sessions 1).room_key lobby matched.0 unknown.0
      (omega arith) (omega arith) (omega arith) fresh matched.1 refl refl refl matched-PoolInv
      unknown.1 stores deletes
