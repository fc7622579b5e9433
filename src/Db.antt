-- ===== src/Db.antt =====
-- smilegate/project/GameChannelServer/db_connector.h and db_connector.cpp. A `MYSQL *` is the
-- number of its slot in `init_instance`. A handler runs with no other between its steps, so a wait
-- for a connection in an empty queue is never over. `none` is the answer `false`.
pub mod Query
pub mod Connections
pub mod Pool
pub mod Slots
use jbjb.Base.{
  ℕ, zero, suc, ◌+◌, ◌%◌, ◌^◌, Bool, true, false, Option, none, some, List, [], ◌∷◌, ◌++◌, map,
  get_elem?, ◌==◌, if◌then◌else◌, Result, ok, fault, out_of_range, endless, ◌>>=◌,
}
use jbjb.Base.Int.{pos}
use jbjb.Base.Texts.{Text}
use jbjb.World.{Reply, External, World}
use Query.{
  Columns, column, user_columns, select_user_info, select_friends, insert_friend, delete_friend,
  select_friend, format,
}

-- `init`: the answers of `mysql_real_connect`, from the slot `i` on. A connection that is made
-- takes the next place of the pool, and the queue gets the number of its slot.
unfoldable pub init : ℕ → List Bool → List ℕ × List ℕ
init i [] = ([], [])
init i (connected ∷ answers) =
    let rest = init (i + 1) answers in if connected then (i ∷ rest.0, i ∷ rest.1) else rest

-- The destructor, on the places 0, 1, 2, … of the pool: the connections that it closes.
pub close_pool : ℕ → List ℕ → Result (List ℕ)
close_pool zero pool = ok []
close_pool (suc more) [] = fault out_of_range
close_pool (suc more) (connection ∷ pool) =
    close_pool more pool >>= λ closed. ok (connection ∷ closed)

-- What the calls make of the answers to their queries: the list of friends, ...
unfoldable pub friends_of : Reply → Option (List Text)
friends_of reply =
    if reply.query_state == 0 then some (map (λ row. column row 0) reply.rows) else none

-- ... that there is no such row yet, ...
unfoldable pub is_new_row : Reply → Bool
is_new_row reply =
    if reply.query_state == 0 then (elim reply.rows [ [] ↦ true | _ ∷ _ ↦ false ]) else false

-- ... and that a row was deleted: `int row = mysql_affected_rows(…)` keeps the low 32 bits.
unfoldable pub is_deleted : Reply → Bool
is_deleted reply =
    if reply.query_state == 0
    then (if reply.affected_rows % 2 ^ 32 == 0 then false else true)
    else false

module _ {S D : Type 0} where
  -- `get_connection`: the index and the connection, or `nullptr`.
  unfoldable pub get_connection : World S D → Result (World S D × Option (ℕ × ℕ))
  get_connection w = elim w.connection_que [
    | [] ↦ ok (w, none)
    | index ∷ rest ↦ elim (get_elem? w.connection_pool index) [
      | none ↦ fault out_of_range
      | some connection ↦ ok (record w { connection_que = rest }, some (index, connection))
    ]
  ]

  -- `while ((mysql_connection = get_connection(index)) == nullptr);`
  unfoldable pub wait_connection : World S D → Result (World S D × (ℕ × ℕ))
  wait_connection w =
      get_connection w >>= λ (w', got). elim got [ none ↦ fault endless | some c ↦ ok (w', c) ]

  unfoldable pub release_connection : ℕ → World S D → World S D
  release_connection index w = record w { connection_que = w.connection_que ++ index ∷ [] }

module _ {S D : Type 0} (x : External S D) where
  -- `mysql_query`, with what is read of its result.
  unfoldable pub query_on : ℕ → Text → World S D → World S D × Reply
  query_on connection text w =
      let (reply, mysql) = x.mysql_query w.mysql connection text in
      (record w { mysql = mysql }, reply)

  -- What is made of the answer to the query for a user.
  unfoldable pub user_info_of : Reply → Option Columns
  user_info_of reply =
      if reply.query_state == 0
      then (elim reply.rows [
        | [] ↦ none
        | row ∷ rest ↦
            some
              (user_columns x (record { win = pos 0; lose = pos 0; rating = pos 0 }) (row ∷ rest))
      ])
      else none

  unfoldable pub get_query_user_info : Text → World S D → Result (World S D × Option Columns)
  get_query_user_info request_id w = format (select_user_info request_id) >>= λ query.
      wait_connection w >>= λ (w', c).
      let (w'', reply) = query_on c.1 query w' in
      ok (release_connection c.0 w'', user_info_of reply)

  unfoldable pub get_user_friends_list : Text → World S D → Result (World S D × Option (List Text))
  get_user_friends_list request_id w = format (select_friends request_id) >>= λ query.
      wait_connection w >>= λ (w', c).
      let (w'', reply) = query_on c.1 query w' in ok (release_connection c.0 w'', friends_of reply)

  -- `check_repetition`: there is no such row yet.
  unfoldable pub check_repetition : ℕ → Text → Text → World S D → Result (World S D × Bool)
  check_repetition connection request_id target_id w =
      format (select_friend request_id target_id) >>= λ query.
      let (w', reply) = query_on connection query w in ok (w', is_new_row reply)

  -- What `add_user_frineds_list` does once the row is known to be new.
  unfoldable pub insert_on : ℕ × ℕ → Text → Text → World S D → Result (World S D × Bool)
  insert_on c request_id target_id w = format (insert_friend request_id target_id) >>= λ query.
      let (w', reply) = query_on c.1 query w in
      ok (release_connection c.0 w', reply.query_state == 0)

  unfoldable pub add_user_frineds_list : Text → Text → World S D → Result (World S D × Bool)
  add_user_frineds_list request_id target_id w = wait_connection w >>= λ (w', c).
      check_repetition c.1 request_id target_id w' >>= λ (w'', is_new).
      if is_new
      then insert_on c request_id target_id w''
      else ok (release_connection c.0 w'', false)

  unfoldable pub del_user_frineds_list : Text → Text → World S D → Result (World S D × Bool)
  del_user_frineds_list request_id target_id w = wait_connection w >>= λ (w', c).
      format (delete_friend request_id target_id) >>= λ query.
      let (w'', reply) = query_on c.1 query w' in ok (release_connection c.0 w'', is_deleted reply)
