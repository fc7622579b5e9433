-- ===== src/Server/Reached.antt =====
-- What holds in every state that the server reaches: its counts, its database connections, and the
-- numbers that it has lost.
use mathlib.Core.Bool.{false≢true}
use jbjb.Server.Closing.{is_closable, close_session_deadlock}
use jbjb.Base.{
  fault, deadlock, ◌≢◌, ◌∙◌, ℕ, ◌≤◌, zero, suc, ok_inj, ◌<◌, ◌≡◌, refl, sym, ap, ◌∙◌, true, false,
  not, [], arith, ok,
}
use jbjb.Base.Int.{pos}
use jbjb.Db.Connections.{PoolInv}
use jbjb.Db.Pool.{KeptPool-PoolInv, free_connections}
use jbjb.Match.Queueing.{In}
use jbjb.Match.Waiters.{Waits-Queued}
use jbjb.Protocol.Status.{wait, match_request, is_status, is_status_iff}
use jbjb.Server.Counting.{total, total-le, open_count, Counted}
use jbjb.Server.Flow.{Flow-Counted, IsStopped}
use jbjb.Server.Numbers.{count, count-numbers_from, count-without, places, NumbersInv}
use jbjb.Server.Reachable.{
  Steps, NoneStray, Steps-NumbersInv, stay, after, accepts, Steps-Flow, start-NumbersInv,
}
use jbjb.Server.{close_session, init, handle_accept, accept_over}
use jbjb.World.{External, World}

total-none : (n : ℕ) → total n (λ _. 0) ≡ 0
total-none zero = refl
total-none (suc n) = omega (arith, total-none n)

module _ {S D : Type 0} where
  -- When the server has been set up, no session has a connection.
  init-Counted :
      (w : World S D)
      → w.session_queue ≡ []
      → w.accepting ≡ []
      → w.connections ≡ pos 0
      → Counted w.max_session_count (init w)
  unfolding init
  init-Counted w e e' no_connection = record {
    within = λ k above. ground (arith, e, e', above, count-numbers_from k 0 w.max_session_count);
    counted = no_connection ∙ ap pos (sym (total-none w.max_session_count));
  }

  -- The number of an `async_accept` that is under way was nowhere else.
  over-lost :
      (w : World S D) (i : ℕ)
      → 0 < count i w.accepting
      → NumbersInv w
      → places i (accept_over i w) ≡ 0
  unfolding accept_over
  over-lost w i under inv = ground (arith, inv.apart i, count-without i i w.accepting under)

module _ {S D : Type 0} (x : External S D) (attempts : ℕ) where
  -- From a server that has just been set up, with its lock free and no connection counted, in every
  -- state that is reached by steps without a fault, none of them a packet for a session in WAIT,
  -- the count of connections is the number of the sessions below `max_session_count` that are not
  -- in WAIT, which is at most `max_session_count`, and no other session is in use.
  pub reached-Counted :
      (w w' : World S D)
      → w.session_queue ≡ []
      → w.accepting ≡ []
      → w.session_queue_locked ≡ false
      → w.connections ≡ pos 0
      → (steps : Steps x attempts (init w) w') → NoneStray x attempts steps
      → Counted w.max_session_count w' × (open_count w.max_session_count w' ≤ w.max_session_count)
  reached-Counted w w' e e' unlocked no_connection steps live = (
    Flow-Counted w.max_session_count
        (Steps-Flow x attempts steps live (start-NumbersInv x attempts w e e' unlocked))
        (init-Counted w e e' no_connection),
    total-le w.max_session_count (λ k. ground arith),
  )

  -- From a server that has just been set up, with its lock free, every state that is reached by
  -- steps without a fault, none of them a packet for a session in WAIT, has the same free database
  -- connections, in some order, and the same pool; so if at the start one is free and each free one
  -- has its place in the pool, this stays so.
  pub reached-PoolInv :
      (w w' : World S D)
      → w.session_queue ≡ []
      → w.accepting ≡ []
      → w.session_queue_locked ≡ false
      → PoolInv w
      → (steps : Steps x attempts (init w) w') → NoneStray x attempts steps
      → (free_connections w' ≡ free_connections w) × PoolInv w'
  unfolding init
  reached-PoolInv w w' e e' unlocked ready steps live =
      let f = Steps-Flow x attempts steps live (start-NumbersInv x attempts w e e' unlocked) in
      (f.pool.que, KeptPool-PoolInv f.pool (record { free = ready.free; indices = ready.indices }))

  -- From a server that has just been set up, with its lock free and all its sockets closed, in
  -- every state that is reached by steps without a fault, none of them a packet for a session in
  -- WAIT, a session has an open socket exactly if its status is not WAIT, and each session that
  -- waits for a game is in one of the matching queues.
  pub reached-Queued :
      (w w' : World S D)
      → w.session_queue ≡ []
      → w.accepting ≡ []
      → w.session_queue_locked ≡ false
      → ((k : ℕ) → (w.sessions k).is_open ≡ false)
      → (steps : Steps x attempts (init w) w') → NoneStray x attempts steps
      → (k : ℕ)
      → ((w'.sessions k).is_open ≡ not (is_status (w'.sessions k).stat wait))
        × ((w'.sessions k).stat ≡ match_request → (r : ℕ) × In k (w'.matching_que r))
  unfolding init
  reached-Queued w w' e e' unlocked shut steps live k =
      let f = Steps-Flow x attempts steps live (start-NumbersInv x attempts w e e' unlocked) in
      let opened = f.opens (λ n. ground (arith, shut n)) k in
      (
        opened,
        λ asks.
            Waits-Queued f.waits (λ n h. absurd (ground (arith, h))) k
              (ground (arith, opened, asks)),
      )

  -- From a server that has just been set up, with its lock free, by steps without a fault, none of
  -- them a packet for a session in WAIT: when the server accepts connections in a state that is
  -- reached, and has stopped in a later one, then after any further such steps it still has, no
  -- number is free, each session that had a connection has one, and closing a session, in any
  -- status but WAIT and MATCH_APPLY, deadlocks.
  pub stopped_for_ever :
      (w u v w' : World S D)
      → w.session_queue ≡ []
      → w.accepting ≡ []
      → w.session_queue_locked ≡ false
      → (before : Steps x attempts (init w) u) → NoneStray x attempts before
      → u.accepting_flag ≡ true
      → (between : Steps x attempts u v) → NoneStray x attempts between
      → v.accepting_flag ≡ false
      → (later : Steps x attempts v w') → NoneStray x attempts later
      → (w'.accepting_flag ≡ false)
        × (w'.session_queue ≡ [])
        × ((k : ℕ) → (v.sessions k).stat ≢ wait → (w'.sessions k).stat ≢ wait)
        × ((k : ℕ)
            → is_closable (w'.sessions k).stat ≡ true
            → close_session x k w' ≡ fault deadlock)
  stopped_for_ever w u v w' e e' unlocked before live flag between live' stopped later live'' =
      let inv₀ : NumbersInv u =
        Steps-NumbersInv x attempts before live (start-NumbersInv x attempts w e e' unlocked) in
      let inv : NumbersInv v = Steps-NumbersInv x attempts between live' inv₀ in
      let h : IsStopped v =
        (Steps-Flow x attempts between live' inv₀).runs
          (λ off. absurd (false≢true (sym off ∙ flag))) stopped in
      let f = Steps-Flow x attempts later live'' inv in
      let h' : IsStopped w' = f.stops h in
      (
        h'.0,
        h'.1,
        λ k had. ground (
          arith,
          had,
          f.stays h k,
          is_status_iff (v.sessions k).stat wait,
          is_status_iff (w'.sessions k).stat wait,
        ),
        λ k closable. close_session_deadlock x k w' closable f.unlocked h'.0,
      )

  -- A number that is in no place stays out of all of them.
  lost_for_ever :
      {w w' : World S D} (k : ℕ)
      → NumbersInv w
      → places k w ≡ 0
      → (steps : Steps x attempts w w') → NoneStray x attempts steps
      → places k w' ≡ 0
  lost_for_ever k inv none_yet steps live =
      omega (arith, none_yet, (Steps-Flow x attempts steps live inv).falls k)

  -- From a server that has just been set up, with its lock free: when an `async_accept` fails in a
  -- state that is reached by steps without a fault, none of them a packet for a session in WAIT,
  -- the number of its session is in no place after any further such steps, neither free nor waiting
  -- for a connection nor with one.
  pub accept_error_loses :
      (w v v' w' : World S D) (i : ℕ)
      → w.session_queue ≡ []
      → w.accepting ≡ []
      → w.session_queue_locked ≡ false
      → (before : Steps x attempts (init w) v) → NoneStray x attempts before
      → 0 < count i v.accepting
      → handle_accept i true v ≡ ok v'
      → (later : Steps x attempts v' w') → NoneStray x attempts later
      → places i w' ≡ 0
  unfolding handle_accept
  accept_error_loses w v v' w' i e e' unlocked before live under failed later live' =
      let inv : NumbersInv v =
        Steps-NumbersInv x attempts before live (start-NumbersInv x attempts w e e' unlocked) in
      let inv' : NumbersInv v' =
        Steps-NumbersInv x attempts (after stay (accepts i true under failed)) (tt, tt) inv in
      let gone : places i v' ≡ 0 = ap (places i) (sym (ok_inj failed)) ∙ over-lost v i under inv in
      lost_for_ever i inv' gone later live'
