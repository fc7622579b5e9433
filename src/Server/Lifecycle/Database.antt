-- ===== src/Server/Lifecycle/Database.antt =====
-- The calls of db_connector leave the sessions and their numbers alone.
use jbjb.Base.{
  ℕ, refl, ◌∙◌, List, [], ◌∷◌, get_elem?, ok, Ends, >>=-Ends, Ends-any, fault, ◌++◌, if_ind,
  Option_ind, List_ind, Option, none, some, endless, ◌≡◌,
}
use jbjb.Base.Texts.{Text}
use jbjb.Db.Query.{
  select_user_info, select_friends, insert_friend, delete_friend, select_friend, format,
}
use jbjb.Db.{
  get_connection, wait_connection, release_connection, query_on, get_query_user_info,
  get_user_friends_list, check_repetition, insert_on, add_user_frineds_list, del_user_frineds_list,
}
use jbjb.Db.Pool.{KeptPool-refl, KeptPool-trans, turned-KeptPool}
use jbjb.Server.Closing.{SameSlots}
use jbjb.World.{External, World}

module _ {S D : Type 0} where
  -- What a call leaves in the state beside its answer.
  abbrev pub Leaves {ℓ} : {A : Type ℓ} → World S D → World S D × A → Type 0
  Leaves w p = SameSlots w p.0

  pub SameSlots-refl : (w : World S D) → SameSlots w w
  SameSlots-refl w = record {
    session_queue = refl;
    locked = refl;
    flag = refl;
    accepting = refl;
    connections = refl;
    sessions = refl;
    matching_que = refl;
    pool = KeptPool-refl;
  }

  pub SameSlots-trans : {u v w : World S D} → SameSlots u v → SameSlots v w → SameSlots u w
  SameSlots-trans p q = record {
    session_queue = q.session_queue ∙ p.session_queue;
    locked = q.locked ∙ p.locked;
    flag = q.flag ∙ p.flag;
    accepting = q.accepting ∙ p.accepting;
    connections = q.connections ∙ p.connections;
    sessions = q.sessions ∙ p.sessions;
    matching_que = q.matching_que ∙ p.matching_que;
    pool = KeptPool-trans p.pool q.pool;
  }

  -- What a call that takes a connection leaves once that is given back.
  abbrev Takes : World S D → World S D × (ℕ × ℕ) → Type 0
  Takes w p = SameSlots w (release_connection p.1.0 p.0)

  abbrev MayTake : World S D → World S D × Option (ℕ × ℕ) → Type 0
  MayTake w (w', none) = SameSlots w w'
  MayTake w (w', some c) = Takes w (w', c)

  turned-Leaves :
      (w : World S D) (index : ℕ) (rest : List ℕ)
      → w.connection_que ≡ index ∷ rest
      → SameSlots w (record w { connection_que = rest ++ index ∷ [] })
  turned-Leaves w index rest e = record {
    session_queue = refl;
    locked = refl;
    flag = refl;
    accepting = refl;
    connections = refl;
    sessions = refl;
    matching_que = refl;
    pool = record { que = turned-KeptPool w index rest e; connection_pool = refl };
  }

  get_connection-MayTake : (w : World S D) → Ends (MayTake w) (get_connection w)
  unfolding get_connection release_connection
  get_connection-MayTake w =
      List_ind (Ends (MayTake w)) w.connection_que (λ _. SameSlots-refl w)
        (λ index rest e.
          Option_ind (Ends (MayTake w)) (get_elem? w.connection_pool index) (λ _. tt)
            (λ c _. turned-Leaves w index rest e))

  wait_connection-Takes : (w : World S D) → Ends (Takes w) (wait_connection w)
  unfolding wait_connection
  wait_connection-Takes w =
      >>=-Ends (MayTake w) (Takes w) (get_connection w) _ (get_connection-MayTake w) may_wait
    where
      may_wait :
          (p : World S D × Option (ℕ × ℕ))
          → MayTake w p
          → Ends (Takes w) (elim p.1 [ none ↦ fault endless | some c ↦ ok (p.0, c) ])
      may_wait (w', none) h = tt
      may_wait (w', some c) h = h

  -- What a query changes is not looked at.
  mysql-Leaves :
      {w w' : World S D} (mysql : D) → SameSlots w w' → SameSlots w (record w' { mysql = mysql })
  mysql-Leaves mysql h = record {
    session_queue = h.session_queue;
    locked = h.locked;
    flag = h.flag;
    accepting = h.accepting;
    connections = h.connections;
    sessions = h.sessions;
    matching_que = h.matching_que;
    pool = record { que = h.pool.que; connection_pool = h.pool.connection_pool };
  }

module _ {S D : Type 0} (x : External S D) where
  pub get_query_user_info-Leaves :
      (request_id : Text) (w : World S D) → Ends (Leaves w) (get_query_user_info x request_id w)
  unfolding get_query_user_info query_on release_connection
  get_query_user_info-Leaves request_id w =
      >>=-Ends (λ _. Unit) (Leaves w) (format (select_user_info request_id)) _ (Ends-any _)
        (λ query _.
          >>=-Ends (Takes w) (Leaves w) (wait_connection w) _ (wait_connection-Takes w)
            (λ (w', c) h. mysql-Leaves _ h))

  pub get_user_friends_list-Leaves :
      (request_id : Text) (w : World S D) → Ends (Leaves w) (get_user_friends_list x request_id w)
  unfolding get_user_friends_list query_on release_connection
  get_user_friends_list-Leaves request_id w =
      >>=-Ends (λ _. Unit) (Leaves w) (format (select_friends request_id)) _ (Ends-any _)
        (λ query _.
          >>=-Ends (Takes w) (Leaves w) (wait_connection w) _ (wait_connection-Takes w)
            (λ (w', c) h. mysql-Leaves _ h))

  check_repetition-Takes :
      (connection index : ℕ) (request_id target_id : Text) (w w' : World S D)
      → Takes w (w', (index, connection))
      → Ends
          (λ p. Takes w (p.0, (index, connection)))
          (check_repetition x connection request_id target_id w')
  unfolding check_repetition query_on release_connection
  check_repetition-Takes connection index request_id target_id w w' h =
      >>=-Ends (λ _. Unit) (λ p. Takes w (p.0, (index, connection)))
        (format (select_friend request_id target_id)) _ (Ends-any _) (λ query _. mysql-Leaves _ h)

  insert_on-Leaves :
      (c : ℕ × ℕ) (request_id target_id : Text) (w w' : World S D)
      → Takes w (w', c)
      → Ends (Leaves w) (insert_on x c request_id target_id w')
  unfolding insert_on query_on release_connection
  insert_on-Leaves c request_id target_id w w' h =
      >>=-Ends (λ _. Unit) (Leaves w) (format (insert_friend request_id target_id)) _ (Ends-any _)
        (λ query _. mysql-Leaves _ h)

  pub add_user_frineds_list-Leaves :
      (request_id target_id : Text) (w : World S D)
      → Ends (Leaves w) (add_user_frineds_list x request_id target_id w)
  unfolding add_user_frineds_list
  add_user_frineds_list-Leaves request_id target_id w =
      >>=-Ends (Takes w) (Leaves w) (wait_connection w) _ (wait_connection-Takes w) λ (w', c) h.
        >>=-Ends (λ p. Takes w (p.0, c)) (Leaves w) (check_repetition x c.1 request_id target_id w')
          _ (check_repetition-Takes c.1 c.0 request_id target_id w w' h)
          λ (w'', is_new) k.
            if_ind (Ends (Leaves w)) is_new (λ _. insert_on-Leaves c request_id target_id w w'' k)
              (λ _. k)

  pub del_user_frineds_list-Leaves :
      (request_id target_id : Text) (w : World S D)
      → Ends (Leaves w) (del_user_frineds_list x request_id target_id w)
  unfolding del_user_frineds_list query_on release_connection
  del_user_frineds_list-Leaves request_id target_id w =
      >>=-Ends (Takes w) (Leaves w) (wait_connection w) _ (wait_connection-Takes w) λ (w', c) h.
        >>=-Ends (λ _. Unit) (Leaves w) (format (delete_friend request_id target_id)) _ (Ends-any _)
          (λ query _. mysql-Leaves _ h)
