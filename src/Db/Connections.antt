-- ===== src/Db/Connections.antt =====
-- The queue of free connections through the calls of db_connector.
use jbjb.Base.{
  ℕ, zero, suc, ◌<◌, ◌≡◌, refl, ap, subst, false, some, List, [], ◌∷◌, arith, length, get_elem?,
  length-append, All, All-append, Result, ok, inl, inr, Bool-cases, ◌==◌,
}
use jbjb.Base.Texts.{Text}
use jbjb.Db.Query.{
  select_user_info, select_friends, insert_friend, delete_friend, select_friend, format, query_size,
}
use jbjb.Db.{
  get_connection, wait_connection, release_connection, query_on, get_query_user_info,
  get_user_friends_list, check_repetition, insert_on, add_user_frineds_list, del_user_frineds_list,
  user_info_of, friends_of, is_new_row, is_deleted,
}
use jbjb.World.{External, World}

abbrev pub IsIndex : List ℕ → ℕ → Type 0
IsIndex pool index = index < length pool

-- A connection is free, and each free one has its place in the pool.
pub record PoolInv {S D : Type 0} (w : World S D) : Type 0 where
  pub free : 0 < length w.connection_que
  pub indices : All (IsIndex w.connection_pool) w.connection_que

-- What a call of db_connector leaves as it was, and how the queue turns.
pub record Served {S D : Type 0} (w w' : World S D) : Type 0 where
  pub sessions : w'.sessions ≡ w.sessions
  pub user_id_map : w'.user_id_map ≡ w.user_id_map
  pub redis : w'.redis ≡ w.redis
  pub session_queue : w'.session_queue ≡ w.session_queue
  pub accepting : w'.accepting ≡ w.accepting
  pub locked : w'.session_queue_locked ≡ w.session_queue_locked
  pub flag : w'.accepting_flag ≡ w.accepting_flag
  pub matching_que : w'.matching_que ≡ w.matching_que
  pub connection_pool : w'.connection_pool ≡ w.connection_pool
  pub same_count : length w'.connection_que ≡ length w.connection_que
  pub ready : PoolInv w'

get_elem?-some {ℓ} :
    {A : Type ℓ} (xs : List A) (i : ℕ) → i < length xs → (a : A) × (get_elem? xs i ≡ some a)
get_elem?-some [] i h = absurd (omega arith)
get_elem?-some (x ∷ xs) zero h = (x, refl)
get_elem?-some (x ∷ xs) (suc i) h = get_elem?-some xs i (omega arith)

format_fits : (text : Text) → length text < query_size → format text ≡ ok text
unfolding format
format_fits text h = ground arith

module _ {S D : Type 0} where
  -- A free connection is at hand, and the state without it.
  pub record Taken (w : World S D) : Type 0 where
    pub index : ℕ
    pub connection : ℕ
    pub rest : List ℕ
    pub que : w.connection_que ≡ index ∷ rest
    pub taken : wait_connection w ≡ ok (record w { connection_que = rest }, (index, connection))

  wait_front :
      (w : World S D) (index connection : ℕ) (rest : List ℕ)
      → w.connection_que ≡ index ∷ rest
      → get_elem? w.connection_pool index ≡ some connection
      → wait_connection w ≡ ok (record w { connection_que = rest }, (index, connection))
  unfolding wait_connection get_connection
  wait_front w index connection rest e at = ground arith

  wait_connection-Taken :
      (que : List ℕ) (w : World S D) → w.connection_que ≡ que → PoolInv w → Taken w
  wait_connection-Taken [] w e inv = absurd (omega (arith, ap length e, inv.free))
  wait_connection-Taken (index ∷ rest) w e inv =
      let (connection, at) =
        get_elem?-some w.connection_pool index
          (subst (All (IsIndex w.connection_pool)) e inv.indices).0 in
      record {
        index = index;
        connection = connection;
        rest = rest;
        que = e;
        taken = wait_front w index connection rest e at;
      }

  -- A connection that was taken is given back after a query.
  give_back-Served :
      (w : World S D) (index : ℕ) (rest : List ℕ) (mysql : D)
      → w.connection_que ≡ index ∷ rest
      → PoolInv w
      → Served w (release_connection index (record w { connection_que = rest; mysql = mysql }))
  unfolding release_connection
  give_back-Served w index rest mysql e inv = record {
    sessions = refl;
    user_id_map = refl;
    redis = refl;
    session_queue = refl;
    accepting = refl;
    locked = refl;
    flag = refl;
    matching_que = refl;
    connection_pool = refl;
    same_count = omega (arith, ap length e, length-append rest (index ∷ []));
    ready = record {
      free = omega (arith, length-append rest (index ∷ []));
      indices =
          let all = subst (All (IsIndex w.connection_pool)) e inv.indices in
          All-append (IsIndex w.connection_pool) rest (index ∷ []) all.1 (all.0, tt);
    };
  }

module _ {S D : Type 0} (x : External S D) where
  -- The reply of the front connection to a query, and the state after it.
  abbrev pub Serves {ℓ} : {A : Type ℓ} → World S D → Result (World S D × A) → Type ℓ
  Serves {A} w r = (w' : World S D) × (a : A) × (r ≡ ok (w', a)) × Served w w'

  -- The state when the connection that was taken has run a query and is back.
  abbrev answered : World S D → ℕ → List ℕ → D → World S D
  answered w index rest mysql =
      release_connection index (record w { connection_que = rest; mysql = mysql })

  -- With a free connection, each with its place in the pool, and a query that fits into its array,
  -- reading a user ends without a fault and gives the connection back.
  pub get_query_user_info-Serves :
      (id : Text) (w : World S D)
      → PoolInv w
      → length (select_user_info id) < query_size
      → Serves w (get_query_user_info x id w)
  unfolding get_query_user_info query_on
  get_query_user_info-Serves id w inv fits =
      let t = wait_connection-Taken w.connection_que w refl inv in
      let q = x.mysql_query w.mysql t.connection (select_user_info id) in
      (
        answered w t.index t.rest q.1,
        user_info_of x q.0,
        rw (format_fits (select_user_info id) fits, t.taken) refl,
        give_back-Served w t.index t.rest q.1 t.que inv,
      )

  -- The same for reading the list of friends.
  pub get_user_friends_list-Serves :
      (id : Text) (w : World S D)
      → PoolInv w
      → length (select_friends id) < query_size
      → Serves w (get_user_friends_list x id w)
  unfolding get_user_friends_list query_on
  get_user_friends_list-Serves id w inv fits =
      let t = wait_connection-Taken w.connection_que w refl inv in
      let q = x.mysql_query w.mysql t.connection (select_friends id) in
      (
        answered w t.index t.rest q.1,
        friends_of q.0,
        rw (format_fits (select_friends id) fits, t.taken) refl,
        give_back-Served w t.index t.rest q.1 t.que inv,
      )

  -- The same for deleting a friend.
  pub del_user_frineds_list-Serves :
      (id target : Text) (w : World S D)
      → PoolInv w
      → length (delete_friend id target) < query_size
      → Serves w (del_user_frineds_list x id target w)
  unfolding del_user_frineds_list query_on
  del_user_frineds_list-Serves id target w inv fits =
      let t = wait_connection-Taken w.connection_que w refl inv in
      let q = x.mysql_query w.mysql t.connection (delete_friend id target) in
      (
        answered w t.index t.rest q.1,
        is_deleted q.0,
        rw (t.taken, format_fits (delete_friend id target) fits) refl,
        give_back-Served w t.index t.rest q.1 t.que inv,
      )

  -- With a free connection, each with its place in the pool, and queries that fit into their
  -- arrays, adding a friend ends without a fault and gives the connection back, whether the row is
  -- new or not.
  pub add_user_frineds_list-Serves :
      (id target : Text) (w : World S D)
      → PoolInv w
      → length (select_friend id target) < query_size
      → length (insert_friend id target) < query_size
      → Serves w (add_user_frineds_list x id target w)
  unfolding add_user_frineds_list check_repetition insert_on query_on
  add_user_frineds_list-Serves id target w inv fits fits' =
      let t = wait_connection-Taken w.connection_que w refl inv in
      let q = x.mysql_query w.mysql t.connection (select_friend id target) in
      let q' = x.mysql_query q.1 t.connection (insert_friend id target) in
      elim (Bool-cases (is_new_row q.0)) [
        | inl absent ↦ (
          answered w t.index t.rest q'.1,
          q'.0.query_state == 0,
          rw
              (
                t.taken,
                format_fits (select_friend id target) fits,
                absent,
                format_fits (insert_friend id target) fits',
              )
              refl,
          give_back-Served w t.index t.rest q'.1 t.que inv,
        )
        | inr present ↦ (
          answered w t.index t.rest q.1,
          false,
          rw (t.taken, format_fits (select_friend id target) fits, present) refl,
          give_back-Served w t.index t.rest q.1 t.que inv,
        )
      ]
