-- ===== src/Server/Flow/Closes.antt =====
-- Closing a session: its number, the count of connections, and who waits for a game.
use mathlib.Core.Bool.{false≢true}
use jbjb.Base.{
  ℕ, ◌<◌, ◌≡◌, refl, subst, sym, ap, ◌∙◌, inl, inr, true, false, not, none, [], ◌∷◌, arith, ok,
  ok_inj, fault-ne-ok, Bool-cases, ◌+◌, ltb,
}
use jbjb.Base.Int.{pos, ◌-ℤ◌}
use native.Mathlib.Decide.{ℕ_discrete}
use jbjb.Match.Waiters.{same-Waits}
use jbjb.Match.{is_waiting}
use jbjb.Protocol.Status.{
  Status, wait, conn, login, logout, match_request, match_apply, match_recver, match_complete,
  match_confirm, is_status,
}
use jbjb.Server.Closing.{is_closable, Closed, close_session-Closed, close_session_deadlock}
use jbjb.Server.Counting.{open_count, total-grows, pos-suc_back}
use jbjb.Server.Numbers.{count-append, busy, closable-busy, places, NumbersInv}
use jbjb.Server.{close_session, close_status}
use jbjb.World.{Session, External, World}
use jbjb.Server.Flow.{Flow, Flow-refl}

module _ {S D : Type 0} (x : External S D) where
  Closed-places :
      (k i : ℕ) (w w' : World S D)
      → is_closable (w.sessions i).stat ≡ true
      → Closed x i w w'
      → places k w' ≡ places k w
  Closed-places k i w w' closable c = elim (ℕ_discrete k i) [
    | yes same ↦ ground (
      arith,
      same,
      ap (λ n. (w'.sessions n).stat) same,
      ap (λ n. (w.sessions n).stat) same,
      c.freed,
      c.accepting,
      c.stat,
      closable-busy (w.sessions i).stat closable,
      count-append k w.session_queue (i ∷ []),
    )
    | no apart ↦ ground (
      arith,
      apart,
      c.freed,
      c.accepting,
      c.others k apart,
      count-append k w.session_queue (i ∷ []),
    )
  ]

  Closed-Flow :
      (i : ℕ) (w w' : World S D)
      → is_closable (w.sessions i).stat ≡ true
      → w.accepting_flag ≡ true
      → Closed x i w w'
      → Flow w w'
  Closed-Flow i w w' closable flag c = record {
    stops = λ h. absurd (false≢true (sym h.0 ∙ flag));
    stays = λ h k. absurd (false≢true (sym h.0 ∙ flag));
    runs = λ h e. absurd (false≢true (sym e ∙ c.flag ∙ flag));
    falls = λ k. omega (arith, Closed-places k i w w' closable c);
    unlocked = c.unlocked;
    counts = λ n counted.
        let here : busy i w ≡ 1 = ground (arith, closable-busy (w.sessions i).stat closable) in
        let below : i < n = elim (Bool-cases (ltb i n)) [
          | inl h ↦ ground (arith, h)
          | inr h ↦ absurd (omega (arith, here, counted.within i (ground (arith, h))))
        ] in
        let shrunk : open_count n w ≡ open_count n w' + 1 =
          total-grows n i below (λ k apart. ground (arith, c.others k apart))
            (ground (arith, here, c.stat)) in
        c.connections
        ∙ ap (λ m. m -ℤ pos 1) (counted.counted ∙ ap pos shrunk)
        ∙ pos-suc_back (open_count n w');
    pool = c.pool;
    opens = λ o k. elim (ℕ_discrete k i) [
      | yes same ↦
          subst (λ n. (w'.sessions n).is_open ≡ not (is_status (w'.sessions n).stat wait))
            (sym same) (ground (arith, c.is_open, c.stat))
      | no apart ↦
          subst (λ s. s.is_open ≡ not (is_status s.stat wait)) (sym (c.others k apart)) (o k)
    ];
    waits = same-Waits c.matching_que (λ k h. elim (ℕ_discrete k i) [
      | yes same ↦
          absurd (ground (arith, subst (λ n. is_waiting (w'.sessions n) ≡ true) same h, c.stat))
      | no apart ↦ inr (subst (λ s. is_waiting s ≡ true) (c.others k apart) h)
    ]);
  }

  close_status-none :
      (a : Status) (s : Session) (w : World S D)
      → is_closable a ≡ false
      → close_status x a s w ≡ none
  unfolding close_status
  close_status-none wait s w h = refl
  close_status-none match_apply s w h = refl
  close_status-none conn s w h = cc
  close_status-none login s w h = cc
  close_status-none logout s w h = cc
  close_status-none match_request s w h = cc
  close_status-none match_recver s w h = cc
  close_status-none match_complete s w h = cc
  close_status-none match_confirm s w h = cc

  pub close_session-skip :
      (w : World S D) (i : ℕ) → is_closable (w.sessions i).stat ≡ false → close_session x i w ≡ ok w
  unfolding close_session
  close_session-skip w i h =
      rw (close_session, close_status-none (w.sessions i).stat (w.sessions i) w h) refl

  pub closes-Flow :
      (w w' : World S D) (i : ℕ) → close_session x i w ≡ ok w' → NumbersInv w → Flow w w'
  closes-Flow w w' i e inv = elim (Bool-cases (is_closable (w.sessions i).stat)) [
    | inr kept ↦ subst (Flow w) (ok_inj (sym (close_session-skip w i kept) ∙ e)) (Flow-refl inv)
    | inl closable ↦ elim (Bool-cases w.accepting_flag) [
      | inr stopped ↦
          absurd
            (fault-ne-ok (sym (close_session_deadlock x i w closable inv.unlocked stopped) ∙ e))
      | inl accepting ↦
          let (w₁, e₁, c) = close_session-Closed x i w closable inv.unlocked accepting in
          subst (Flow w) (ok_inj (sym e₁ ∙ e)) (Closed-Flow i w w₁ closable accepting c)
    ]
  ]
