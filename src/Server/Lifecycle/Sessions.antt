-- ===== src/Server/Lifecycle/Sessions.antt =====
-- Changes of one session, or of two.
use jbjb.Base.{ℕ, ◌≡◌, refl, ap, ◌∙◌, subst, ◌≢◌, ◌⊎◌, inl, inr, true, false, arith, ==_iff}
use mathlib.Core.Path.{fun_ext}
use jbjb.Base.Update.{update}
use jbjb.Base.Texts.{Text}
use jbjb.Db.Pool.{free_connections}
use native.Mathlib.Decide.{ℕ_discrete}
use jbjb.Match.Waiters.{Waiting, Queued, same-Waits}
use jbjb.Protocol.Messages.{Message}
use jbjb.Protocol.Status.{Status, wait, match_request, is_status}
use jbjb.Server.Turns.{Statuses, Turn, over, next}
use jbjb.Session.Fields.{send_message-Sent}
use jbjb.Session.{set_status, send_message}
use jbjb.World.Access.{with_session}
use jbjb.World.{Session, World}
use jbjb.Server.Lifecycle.{stat_of, statuses, Kept, Progress}

module _ {S D : Type 0} where
  pub with_session-statuses :
      (i : ℕ) (method : Session → Session) (w : World S D) {a : Status}
      → (method (w.sessions i)).stat ≡ a
      → statuses (with_session i method w) ≡ update (statuses w) i a
  with_session-statuses i method w e = fun_ext (λ k. ground (arith, e))

  quiet-statuses :
      (i : ℕ) (method : Session → Session) (w : World S D)
      → (method (w.sessions i)).stat ≡ stat_of i w
      → statuses (with_session i method w) ≡ statuses w
  quiet-statuses i method w e = fun_ext (λ k. ground (arith, e, ==_iff i k))

  -- A change of the sessions alone, in which none begins or ends its connection.
  pub sessions-Kept :
      (w w' : World S D)
      → w' ≡ record w { sessions = w'.sessions }
      → ((k : ℕ) → is_status (stat_of k w') wait ≡ is_status (stat_of k w) wait)
      → ((k : ℕ) → Waiting k w' → Queued k w ⊎ Waiting k w)
      → ((k : ℕ) → (w'.sessions k).is_open ≡ (w.sessions k).is_open)
      → Kept w w'
  sessions-Kept w w' same busy waiter opened = record {
    session_queue = ap (λ (v : World S D). v.session_queue) same;
    accepting = ap (λ (v : World S D). v.accepting) same;
    locked = ap (λ (v : World S D). v.session_queue_locked) same;
    flag = ap (λ (v : World S D). v.accepting_flag) same;
    connections = ap (λ (v : World S D). v.connections) same;
    pool = record {
      que = ap free_connections same;
      connection_pool = ap (λ (v : World S D). v.connection_pool) same;
    };
    waits = same-Waits (ap (λ (v : World S D). v.matching_que) same) waiter;
    opened = opened;
    busy = busy;
  }

  pub quiet-Progress :
      (n i : ℕ) (method : Session → Session) (w : World S D)
      → (method (w.sessions i)).stat ≡ stat_of i w
      → (method (w.sessions i)).is_open ≡ (w.sessions i).is_open
      → Progress n w (with_session i method w)
  quiet-Progress n i method w same opened =
      let e = quiet-statuses i method w same in
      record {
        kept =
            sessions-Kept w (with_session i method w) refl
              (λ k. ap (λ (f : Statuses). is_status (f k) wait) e)
              (λ k h. inr (subst (λ b. b ≡ true) (ground (arith, same, opened, ==_iff i k)) h))
              (λ k. ground (arith, opened, ==_iff i k));
        turns = over e;
      }

  pub message-Progress :
      (n : ℕ) (serialize : Message → Text) (i : ℕ) (m : Message) (w : World S D)
      → Progress n w (with_session i (send_message serialize m) w)
  message-Progress n serialize i m w =
      let sent = send_message-Sent serialize m (w.sessions i) in
      quiet-Progress n i (send_message serialize m) w sent.stat sent.is_open

  -- One session that has a connection takes a status other than WAIT, and if it then waits for a
  -- game, it is in a queue.
  pub set_status-Kept :
      (i : ℕ) (a : Status) (w : World S D)
      → is_status (stat_of i w) wait ≡ false
      → is_status a wait ≡ false
      → (is_status a match_request ≡ true → Queued i w)
      → Kept w (with_session i (set_status a) w)
  set_status-Kept i a w live lives listed =
      let w' : World S D = with_session i (set_status a) w in
      sessions-Kept w w' refl
        (λ k.
          ap (λ (f : Statuses). is_status (f k) wait)
            (with_session-statuses i (set_status a) w refl)
          ∙ ground (arith, live, lives, ==_iff i k))
        (λ k h. elim (ℕ_discrete i k) [
          | yes same ↦
              inl (subst (λ n. Queued n w) same (listed (ground (arith, h, ==_iff i k, same))))
          | no apart ↦ inr (ground (arith, h, ==_iff i k, apart))
        ])
        (λ k. ground (arith, ==_iff i k))

  pub set_status-Progress :
      (i : ℕ) (a : Status) (w : World S D)
      → Turn (statuses w) (update (statuses w) i a)
      → is_status (stat_of i w) wait ≡ false
      → is_status a wait ≡ false
      → (is_status a match_request ≡ true → Queued i w)
      → Progress 1 w (with_session i (set_status a) w)
  set_status-Progress i a w t live lives listed = record {
    kept = set_status-Kept i a w live lives listed;
    turns = next (update (statuses w) i a) t (over (with_session-statuses i (set_status a) w refl));
  }

  -- Two sessions that have connections take statuses other than WAIT and MATCH_REQUEST.
  pub both-Progress :
      (i j : ℕ) (a b : Status) (first second : Session → Session) (w : World S D)
      → i ≢ j
      → (first (w.sessions i)).stat ≡ a
      → (second (w.sessions j)).stat ≡ b
      → (first (w.sessions i)).is_open ≡ (w.sessions i).is_open
      → (second (w.sessions j)).is_open ≡ (w.sessions j).is_open
      → Turn (statuses w) (update (update (statuses w) i a) j b)
      → is_status (stat_of i w) wait ≡ false
      → is_status (stat_of j w) wait ≡ false
      → is_status a wait ≡ false
      → is_status b wait ≡ false
      → is_status a match_request ≡ false
      → is_status b match_request ≡ false
      → Progress 1 w (with_session j second (with_session i first w))
  both-Progress i j a b first second w ne ea eb oa ob t live_i live_j lives_a lives_b done_a
        done_b =
      let w₁ : World S D = with_session i first w in
      let w₂ : World S D = with_session j second w₁ in
      let there : w₁.sessions j ≡ w.sessions j = ground (arith, ne, ==_iff i j) in
      let e : statuses w₂ ≡ update (update (statuses w) i a) j b =
        with_session-statuses j second w₁ (ap (λ s. (second s).stat) there ∙ eb)
        ∙ ap (λ f. update f j b) (with_session-statuses i first w ea) in
      record {
        kept =
            sessions-Kept w w₂ refl
              (λ k.
                ap (λ (f : Statuses). is_status (f k) wait) e
                ∙ ground (arith, live_i, live_j, lives_a, lives_b, ==_iff i k, ==_iff j k))
              (λ k h.
                inr (ground (arith, h, ea, there, eb, done_a, done_b, ==_iff i k, ==_iff j k)))
              (λ k. ground (arith, oa, there, ob, ==_iff i k, ==_iff j k));
        turns = next (update (update (statuses w) i a) j b) t (over e);
      }
