-- ===== src/Server/Flow.antt =====
-- What the calls of the server do to the numbers of its sessions, to the count of connections and
-- to the queue of free database connections.
pub mod Accepts
pub mod Closes
use jbjb.Base.{ℕ, ◌≤◌, ◌≡◌, sym, ap, ◌∙◌, false, not, [], arith}
use jbjb.Base.Int.{pos}
use jbjb.Db.Pool.{KeptPool, KeptPool-refl, KeptPool-trans}
use jbjb.Match.Waiters.{Waits, Waits-refl, Waits-trans}
use jbjb.Protocol.Status.{wait, is_status}
use jbjb.Server.Counting.{Counted, open_count, total-congr}
use jbjb.Server.Lifecycle.{Kept}
use jbjb.Server.Numbers.{busy, places, NumbersInv}
use jbjb.World.{World}

module _ {S D : Type 0} where
  -- A socket is open exactly if the status is not WAIT.
  abbrev pub IsOpenLive : World S D → Type 0
  IsOpenLive w = (k : ℕ) → (w.sessions k).is_open ≡ not (is_status (w.sessions k).stat wait)

  -- The server has stopped accepting, and no session is free.
  abbrev pub IsStopped : World S D → Type 0
  IsStopped w = (w.accepting_flag ≡ false) × (w.session_queue ≡ [])

  -- No number comes to be in more places, and the counts stay true.
  pub record Flow (w w' : World S D) : Type 0 where
    pub falls : (k : ℕ) → places k w' ≤ places k w
    pub unlocked : w'.session_queue_locked ≡ false
    pub counts : (n : ℕ) → Counted n w → w'.connections ≡ pos (open_count n w')
    pub pool : KeptPool w w'
    pub waits : Waits w w'
    pub opens : IsOpenLive w → IsOpenLive w'
    pub stops : IsStopped w → IsStopped w'
    pub stays : IsStopped w → (k : ℕ) → busy k w ≤ busy k w'
    pub runs : (w.accepting_flag ≡ false → IsStopped w) → w'.accepting_flag ≡ false → IsStopped w'

  pub Flow-NumbersInv : {w w' : World S D} → Flow w w' → NumbersInv w → NumbersInv w'
  Flow-NumbersInv f inv = record {
    apart = λ k. omega (arith, f.falls k, inv.apart k);
    unlocked = f.unlocked;
  }

  pub Flow-Counted : (n : ℕ) {w w' : World S D} → Flow w w' → Counted n w → Counted n w'
  Flow-Counted n f c = record {
    within = λ k above. omega (arith, f.falls k, c.within k above);
    counted = f.counts n c;
  }

  pub Flow-refl : {w : World S D} → NumbersInv w → Flow w w
  Flow-refl inv = record {
    falls = λ k. omega arith;
    unlocked = inv.unlocked;
    counts = λ n c. c.counted;
    pool = KeptPool-refl;
    waits = Waits-refl;
    opens = λ o. o;
    stops = λ h. h;
    stays = λ h k. omega arith;
    runs = λ h e. h e;
  }

  pub Flow-trans : {u v w : World S D} → Flow u v → Flow v w → Flow u w
  Flow-trans f g = record {
    falls = λ k. omega (arith, f.falls k, g.falls k);
    unlocked = g.unlocked;
    counts = λ n c. g.counts n (Flow-Counted n f c);
    pool = KeptPool-trans f.pool g.pool;
    waits = Waits-trans f.waits g.waits;
    opens = λ o. g.opens (f.opens o);
    stops = λ h. g.stops (f.stops h);
    stays = λ h k. omega (arith, f.stays h k, g.stays (f.stops h) k);
    runs = λ h. g.runs (f.runs h);
  }

  pub Kept-Flow : {w w' : World S D} → Kept w w' → NumbersInv w → Flow w w'
  Kept-Flow {w} {w'} p inv =
      let same : (k : ℕ) → busy k w' ≡ busy k w = λ k. ground (arith, p.busy k) in
      record {
        falls = λ k. ground (arith, p.session_queue, p.accepting, same k);
        unlocked = p.locked ∙ inv.unlocked;
        counts = λ n c. p.connections ∙ c.counted ∙ ap pos (sym (total-congr n same));
        pool = p.pool;
        waits = p.waits;
        opens = λ o k. p.opened k ∙ o k ∙ ap not (sym (p.busy k));
        stops = λ h. (p.flag ∙ h.0, p.session_queue ∙ h.1);
        stays = λ h k. omega (arith, same k);
        runs = λ h e.
            let stopped = h (sym p.flag ∙ e) in (p.flag ∙ stopped.0, p.session_queue ∙ stopped.1);
      }
