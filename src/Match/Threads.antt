-- ===== src/Match/Threads.antt =====
-- Threads in match_manager.cpp: `set_matching_que` and `rematching_start` hold the mutex of one
-- queue from the push to the return. Up to the call of `make_matching_and_send_complete` each is
-- one section, and that call, which waits for Redis, is another; between the two sections of a
-- call, calls that hold the mutexes of other queues go on.
pub mod Selecting
pub mod Sections
pub mod Serial
pub mod Separate
pub mod Untimed
pub mod Racing
use jbjb.Base.{ℕ, ◌≡◌, Bool, true, false, Option, none, some, [], ◌∷◌, ◌++◌, ok}
use jbjb.Base.Int.{ℤ}
use jbjb.Base.Update.{update}
use jbjb.Match.Rating.{shared_que}
use jbjb.Match.Requests.{class_of, requested}
use jbjb.Match.{select_players, start_timer, make_matching_and_send_complete}
use jbjb.Protocol.Status.{match_request}
use jbjb.World.Access.{set_que}
use jbjb.World.{External, World}

-- `selected r` is `none` while rank_que_mtx[r] is free, and between calls; if a call that holds it
-- has selected two players, it is these.
pub record Threads (S D : Type 0) : Type 0 where
  pub world : World S D
  pub selected : ℕ → Option (ℕ × ℕ)

abbrev pub is_some : Option (ℕ × ℕ) → Bool
is_some none = false
is_some (some _) = true

module _ {S D : Type 0} where
  -- No call is under way.
  abbrev pub idle : World S D → Threads S D
  idle w = record { world = w; selected = λ _. none }

  -- The state in which `rematching_start` looks into the queue.
  abbrev pub expired : ℕ → World S D → World S D
  expired i w = set_que shared_que (w.matching_que shared_que ++ i ∷ []) w

  -- The sections up to the match, each with the state after it and the players that it has
  -- selected.
  abbrev pub select : ℕ → World S D → World S D × Option (ℕ × ℕ)
  select r w = select_players r (w.matching_que r) w

  -- `process_matching`, and `set_matching_que` in it. The timer is set if there is no match.
  unfoldable pub request_section : ℕ → Threads S D → Threads S D
  request_section i t =
      let r = class_of i t.world in
      let (w', players) = select r (requested i r t.world) in
      record { world = start_timer i (is_some players) w'; selected = update t.selected r players }

  -- `rematching_start`, once the status has been looked at.
  unfoldable pub timer_section : ℕ → Threads S D → Threads S D
  timer_section i t =
      let (w', players) = select shared_que (expired i t.world) in
      record { world = w'; selected = update t.selected shared_que players }

module _ {S D : Type 0} (x : External S D) (attempts : ℕ) where
  -- The steps of any number of threads: a request of a session, a timer that has been set and runs
  -- out, and the match of a call that has selected its players. The first two wait for the mutex.
  pub data Step (t t' : Threads S D) : Type 0 where
    request :
        (i : ℕ) → t.selected (class_of i t.world) ≡ none → t' ≡ request_section i t → Step t t'
    timer :
        (i : ℕ) (sec : ℤ)
        → (t.world.sessions i).match_timer ≡ some sec
        → (t.world.sessions i).stat ≡ match_request
        → t.selected shared_que ≡ none
        → t' ≡ timer_section i t
        → Step t t'
    complete :
        (r i j : ℕ) (w' : World S D)
        → t.selected r ≡ some (i, j)
        → make_matching_and_send_complete x attempts i j t.world ≡ ok w'
        → t' ≡ record { world = w'; selected = update t.selected r none }
        → Step t t'

  pub data Steps (t : Threads S D) : Threads S D → Type 0 where
    stay : Steps t t
    after : {u v : Threads S D} → Steps t u → Step u v → Steps t v
