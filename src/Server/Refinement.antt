-- ===== src/Server/Refinement.antt =====
-- The steps of the server against what its sessions show of it.
use jbjb.Base.{
  ℕ, suc, ◌<◌, ◌≡◌, refl, subst, sym, ap, ◌∙◌, inl, inr, Bool, true, false, arith, ok, ok_inj,
  fault-ne-ok, Bool-cases, ==_iff, List, [], ◌∷◌,
}
use mathlib.Core.Path.{fun_ext}
use jbjb.Base.Update.{update}
use native.Mathlib.Decide.{ℕ_discrete}
use jbjb.Protocol.Status.{Status, wait, conn, match_confirm}
use jbjb.Server.Closing.{is_closable, Closed, close_session-Closed, close_session_deadlock}
use jbjb.Server.Flow.Closes.{close_session-skip}
use jbjb.Server.Lifecycle.Packets.{
  Handled, process_packet-Handled, rematch-Progress, handle_write-Progress,
}
use jbjb.Server.Lifecycle.{stat_of, statuses, Progress-refl, Progress-trans}
use jbjb.Server.Lifecycle.Sessions.{with_session-statuses}
use jbjb.Server.Turns.{Statuses, leaves, connects, Turns, over, next}
use jbjb.Server.Numbers.{count, NumbersInv, busy_wait, wait_accept-front}
use jbjb.Server.Reachable.{
  stored, store-Progress, Step, waits, accepts, packet, written, timer, fails, closes, Steps,
  NotStray, NoneStray, init-NumbersInv,
}
use jbjb.Server.{
  init, handle_receive_error, ReceiveError, eof, connection_reset, other, accept_front, wait_accept,
  accept_over, accepted, handle_accept, close_session,
}
use jbjb.Session.{set_status}
use jbjb.Session
use jbjb.World.{Session, External, World}

module _ {S D : Type 0} where
  same-statuses : (w w' : World S D) → w'.sessions ≡ w.sessions → statuses w' ≡ statuses w
  same-statuses w w' e = ap (λ (f : ℕ → Session). λ k. (f k).stat) e

  accept_front-sessions :
      (queue : List ℕ) (w : World S D) → (accept_front queue w).0.sessions ≡ w.sessions
  unfolding accept_front
  accept_front-sessions [] w = refl
  accept_front-sessions (i ∷ rest) w = refl

  waits-statuses :
      (w w' : World S D) (b : Bool)
      → w.session_queue_locked ≡ false
      → wait_accept w ≡ ok (w', b)
      → statuses w' ≡ statuses w
  waits-statuses w w' b unlocked e =
      let front = ap (λ p. p.0.sessions) (ok_inj (sym (wait_accept-front w unlocked) ∙ e)) in
      same-statuses w w' (sym front ∙ accept_front-sessions w.session_queue w)

  accepts-Turns :
      (w w' : World S D) (i : ℕ) (error : Bool)
      → 0 < count i w.accepting
      → handle_accept i error w ≡ ok w'
      → NumbersInv w
      → Turns 2 (statuses w) (statuses w')
  unfolding handle_accept accept_over accepted
  accepts-Turns w w' i true under e inv =
      over (same-statuses w w' (sym (ap (λ (v : World S D). v.sessions) (ok_inj e))))
  accepts-Turns w w' i false under e inv =
      let w₁ : World S D = accepted i (accept_over i w) in
      let free : stat_of i w ≡ wait = busy_wait (stat_of i w) (omega (arith, inv.apart i, under)) in
      let same : ok (accept_front w₁.session_queue w₁).0 ≡ ok w' =
        sym (rw (wait_accept-front w₁ inv.unlocked) refl) ∙ e in
      let kept : w'.sessions ≡ w₁.sessions =
        sym (ap (λ (v : World S D). v.sessions) (ok_inj same))
        ∙ accept_front-sessions w₁.session_queue w₁ in
      let open_socket : Session → Session = λ s. record s { is_open = true } in
      next (update (statuses w) i conn) (connects i free refl) (
        over (
          same-statuses w₁ w' kept
          ∙ with_session-statuses i (λ s. set_status conn (Session.init (open_socket s))) w refl))

module _ {S D : Type 0} (x : External S D) where
  Closed-statuses :
      (i : ℕ) (w w' : World S D) → Closed x i w w' → statuses w' ≡ update (statuses w) i wait
  Closed-statuses i w w' c = fun_ext (λ k. elim (ℕ_discrete k i) [
    | yes same ↦ ground (arith, same, ap (λ n. stat_of n w') same, c.stat, ==_iff i k)
    | no apart ↦ ground (arith, apart, c.others k apart, ==_iff i k)
  ])

  ends-statuses :
      (w w' : World S D) (i : ℕ)
      → close_session x i w ≡ ok w'
      → w.session_queue_locked ≡ false
      → is_closable (stat_of i w) ≡ true
      → statuses w' ≡ update (statuses w) i wait
  ends-statuses w w' i e unlocked closable = elim (Bool-cases w.accepting_flag) [
    | inr stopped ↦
        absurd (fault-ne-ok (sym (close_session_deadlock x i w closable unlocked stopped) ∙ e))
    | inl accepting ↦
        let (w₁, e₁, c) = close_session-Closed x i w closable unlocked accepting in
        subst (λ v. statuses v ≡ update (statuses w) i wait) (ok_inj (sym e₁ ∙ e))
          (Closed-statuses i w w₁ c)
  ]

  closes-Turns :
      (n : ℕ) (w w' : World S D) (i : ℕ)
      → close_session x i w ≡ ok w'
      → w.session_queue_locked ≡ false
      → Turns (suc n) (statuses w) (statuses w')
  closes-Turns n w w' i e unlocked = elim (Bool-cases (is_closable (stat_of i w))) [
    | inr kept ↦ over (
        same-statuses w w'
          (ap (λ (v : World S D). v.sessions) (ok_inj (sym e ∙ close_session-skip x w i kept))))
    | inl closable ↦
        next (statuses w') (leaves i closable (ends-statuses w w' i e unlocked closable))
          (over refl)
  ]

  update-twice : (f : Statuses) (i : ℕ) (a b : Status) → update (update f i a) i b ≡ update f i b
  update-twice f i a b = fun_ext (λ k. ground arith)

  Handled-Turns :
      (i : ℕ) (w w' : World S D)
      → Handled x i w w'
      → w.session_queue_locked ≡ false
      → Turns 2 (statuses w) (statuses w')
  Handled-Turns i w w' (inl p) unlocked = p.turns
  Handled-Turns i w w' (inr c) unlocked =
      let between : stat_of i c.between ≡ match_confirm =
        ap (λ (f : Statuses). f i) c.confirmed ∙ ground arith in
      let ended : statuses w' ≡ update (statuses c.between) i wait =
        ends-statuses c.between w' i c.closed (c.before.locked ∙ unlocked)
          (ground (arith, between)) in
      next (statuses w')
        (leaves i (ground (arith, c.complete)) (
          ended
          ∙ ap (λ f. update f i wait) c.confirmed
          ∙ update-twice (statuses w) i match_confirm wait))
        (over refl)

module _ {S D : Type 0} (x : External S D) (attempts : ℕ) where
  fails-Turns :
      (error : ReceiveError) (w w' : World S D) (i : ℕ)
      → handle_receive_error x attempts error i w ≡ ok w'
      → w.session_queue_locked ≡ false
      → Turns 2 (statuses w) (statuses w')
  unfolding handle_receive_error
  fails-Turns eof w w' i e unlocked = closes-Turns x 1 w w' i e unlocked
  fails-Turns connection_reset w w' i e unlocked = closes-Turns x 1 w w' i e unlocked
  fails-Turns other w w' i e unlocked =
      over (same-statuses w w' (sym (ap (λ (v : World S D). v.sessions) (ok_inj e))))

  pub Step-Turns :
      {w w' : World S D} (step : Step x attempts w w')
      → NotStray x attempts step
      → NumbersInv w
      → Turns 2 (statuses w) (statuses w')
  Step-Turns {w} {w'} (waits b e) _ inv = over (waits-statuses w w' b inv.unlocked e)
  Step-Turns {w} {w'} (accepts i error under e) _ inv = accepts-Turns w w' i error under e inv
  Step-Turns {w} {w'} (packet i p e) live inv =
      Handled-Turns x i w w' (process_packet-Handled x attempts i p w w' live e) inv.unlocked
  Step-Turns {w} {w'} (stored i rest same) _ inv =
      subst (λ v. Turns 2 (statuses w) (statuses v)) (sym same) (store-Progress 2 i rest w).turns
  Step-Turns {w} {w'} (written i s e same) _ inv =
      subst (λ v. Turns 2 (statuses w) (statuses v)) (sym same)
        (Progress-trans 2 0 (Progress-refl 2 w) (handle_write-Progress i s w e)).turns
  Step-Turns {w} {w'} (timer i e) _ inv =
      (Progress-trans 1 1 (Progress-refl 1 w) (rematch-Progress x attempts i w w' e)).turns
  Step-Turns {w} {w'} (fails error i e) _ inv = fails-Turns error w w' i e inv.unlocked
  Step-Turns {w} {w'} (closes i e) _ inv = closes-Turns x 1 w w' i e inv.unlocked

  -- As long as no packet is handed on for a session in WAIT, the server refines the abstract one:
  -- in every state that a server which has just been set up, with its lock free, reaches by such
  -- steps without a fault, each further such step changes the statuses of its sessions by at most
  -- two turns of the abstract server. A turn begins or ends the connection of one session, brings
  -- one to LOGIN, LOGOUT or MATCH_REQUEST, or takes two sessions through a game at once: two that
  -- both wait are matched, two in the lobby become applicant and receiver, and these are matched or
  -- both return to the lobby.
  pub Step-refines :
      (w w' w'' : World S D)
      → w.session_queue ≡ []
      → w.accepting ≡ []
      → w.session_queue_locked ≡ false
      → (steps : Steps x attempts (init w) w') → NoneStray x attempts steps
      → (step : Step x attempts w' w'') → NotStray x attempts step
      → Turns 2 (statuses w') (statuses w'')
  Step-refines w w' w'' e e' unlocked steps live step live' =
      Step-Turns step live' (init-NumbersInv x attempts w w' e e' unlocked steps live)
