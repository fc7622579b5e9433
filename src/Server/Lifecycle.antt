-- ===== src/Server/Lifecycle.antt =====
-- The changes that the server makes to the statuses of its sessions.
pub mod Sessions
pub mod Database
pub mod Lobby
pub mod Games
pub mod Requests
pub mod Relays
pub mod Packets
use jbjb.Base.{ℕ, ◌+◌, ◌≡◌, refl, ap, ◌∙◌, subst, inr, true}
use jbjb.Db.Pool.{KeptPool, KeptPool-refl, KeptPool-trans}
use jbjb.Match.Waiters.{Waits, Waits-refl, Waits-trans, same-Waits}
use jbjb.Match.{is_waiting}
use jbjb.Protocol.Status.{Status, wait, is_status}
use jbjb.Server.Closing.{SameSlots}
use jbjb.Server.Turns.{Statuses, Turns, over, Turns-trans}
use jbjb.World.{Session, World}

module _ {S D : Type 0} where
  abbrev pub stat_of : ℕ → World S D → Status
  stat_of k w = (w.sessions k).stat

  abbrev pub statuses : World S D → Statuses
  statuses w = λ k. stat_of k w

  -- No connection begins or ends, and the numbers of the sessions are where they were.
  pub record Kept (w w' : World S D) : Type 0 where
    pub session_queue : w'.session_queue ≡ w.session_queue
    pub accepting : w'.accepting ≡ w.accepting
    pub locked : w'.session_queue_locked ≡ w.session_queue_locked
    pub flag : w'.accepting_flag ≡ w.accepting_flag
    pub connections : w'.connections ≡ w.connections
    pub pool : KeptPool w w'
    pub waits : Waits w w'
    pub opened : (k : ℕ) → (w'.sessions k).is_open ≡ (w.sessions k).is_open
    pub busy : (k : ℕ) → is_status (stat_of k w') wait ≡ is_status (stat_of k w) wait

  -- Beside that the sessions have gone on by at most `n` turns.
  pub record Progress (n : ℕ) (w w' : World S D) : Type 0 where
    pub kept : Kept w w'
    pub turns : Turns n (statuses w) (statuses w')

  pub Progress-refl : (n : ℕ) (w : World S D) → Progress n w w
  Progress-refl n w = record {
    kept = record {
      session_queue = refl;
      accepting = refl;
      locked = refl;
      flag = refl;
      connections = refl;
      pool = KeptPool-refl;
      waits = Waits-refl;
      opened = λ k. refl;
      busy = λ k. refl;
    };
    turns = over refl;
  }

  pub Kept-trans : {u v w : World S D} → Kept u v → Kept v w → Kept u w
  Kept-trans p q = record {
    session_queue = q.session_queue ∙ p.session_queue;
    accepting = q.accepting ∙ p.accepting;
    locked = q.locked ∙ p.locked;
    flag = q.flag ∙ p.flag;
    connections = q.connections ∙ p.connections;
    pool = KeptPool-trans p.pool q.pool;
    waits = Waits-trans p.waits q.waits;
    opened = λ k. q.opened k ∙ p.opened k;
    busy = λ k. q.busy k ∙ p.busy k;
  }

  pub Progress-trans :
      (m n : ℕ) {u v w : World S D} → Progress m u v → Progress n v w → Progress (m + n) u w
  Progress-trans m n p q = record {
    kept = Kept-trans p.kept q.kept;
    turns = Turns-trans m n p.turns q.turns;
  }

  -- Nothing about the sessions has changed.
  pub slots-Progress : (n : ℕ) {w w' : World S D} → SameSlots w w' → Progress n w w'
  slots-Progress n {w} s = record {
    kept = record {
      session_queue = s.session_queue;
      accepting = s.accepting;
      locked = s.locked;
      flag = s.flag;
      connections = s.connections;
      pool = s.pool;
      opened = λ k. ap (λ (f : ℕ → Session). (f k).is_open) s.sessions;
      waits =
          same-Waits s.matching_que
            (λ k h. inr (subst (λ (f : ℕ → Session). is_waiting (f k) ≡ true) s.sessions h));
      busy = λ k. ap (λ (f : ℕ → Session). is_status (f k).stat wait) s.sessions;
    };
    turns = over (ap (λ (f : ℕ → Session). λ k. (f k).stat) s.sessions);
  }
