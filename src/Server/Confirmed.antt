-- ===== src/Server/Confirmed.antt =====
-- The status MATCH_CONFIRM, which process_match_confirm sets, between the steps of the server.
use jbjb.Base.{ℕ, suc, ◌≡◌, ◌≢◌, arith, false, [], ◌==◌, if_ind}
use jbjb.Base.Update.{update}
use jbjb.Protocol.Status.{
  Status, wait, conn, login, logout, match_request, match_apply, match_recver, match_complete,
  match_confirm,
}
use jbjb.Server.Lifecycle.{stat_of, statuses}
use jbjb.Server.Turns.{
  Statuses, Turn, connects, leaves, joins, quits, asks, meets, invites, agrees, declines, Turns,
  over, next,
}
use jbjb.Server.Numbers.{NumbersInv}
use jbjb.Server.Reachable.{Steps, stay, after, NoneStray, Steps-NumbersInv, start-NumbersInv}
use jbjb.Server.Refinement.{Step-Turns}
use jbjb.Server.{init}
use jbjb.World.{External, World}

-- No session has confirmed a match and is still open.
abbrev NoneConfirmed : Statuses → Type 0
NoneConfirmed f = (k : ℕ) → f k ≢ match_confirm

update-NoneConfirmed :
    (f : Statuses) (i : ℕ) (a : Status)
    → a ≢ match_confirm
    → NoneConfirmed f
    → NoneConfirmed (update f i a)
update-NoneConfirmed f i a other none_yet k =
    if_ind (λ b. b ≢ match_confirm) (i == k) (λ _. other) (λ _. none_yet k)

one-NoneConfirmed :
    (f f' : Statuses) (i : ℕ) (a : Status)
    → f' ≡ update f i a
    → a ≢ match_confirm
    → NoneConfirmed f
    → NoneConfirmed f'
one-NoneConfirmed f f' i a e other h = rw e (update-NoneConfirmed f i a other h)

both-NoneConfirmed :
    (f f' : Statuses) (i j : ℕ) (a b : Status)
    → f' ≡ update (update f i a) j b
    → a ≢ match_confirm
    → b ≢ match_confirm
    → NoneConfirmed f
    → NoneConfirmed f'
both-NoneConfirmed f f' i j a b e first second h =
    one-NoneConfirmed (update f i a) f' j b e second (update-NoneConfirmed f i a first h)

Turn-NoneConfirmed : {f f' : Statuses} → Turn f f' → NoneConfirmed f → NoneConfirmed f'
Turn-NoneConfirmed {f} {f'} (connects i _ e) h = one-NoneConfirmed f f' i conn e (ground arith) h
Turn-NoneConfirmed {f} {f'} (leaves i _ e) h = one-NoneConfirmed f f' i wait e (ground arith) h
Turn-NoneConfirmed {f} {f'} (joins i _ e) h = one-NoneConfirmed f f' i login e (ground arith) h
Turn-NoneConfirmed {f} {f'} (quits i _ e) h = one-NoneConfirmed f f' i logout e (ground arith) h
Turn-NoneConfirmed {f} {f'} (asks i _ e) h =
    one-NoneConfirmed f f' i match_request e (ground arith) h
Turn-NoneConfirmed {f} {f'} (meets i j _ _ _ e) h =
    both-NoneConfirmed f f' i j match_complete match_complete e (ground arith) (ground arith) h
Turn-NoneConfirmed {f} {f'} (invites i j _ _ _ e) h =
    both-NoneConfirmed f f' i j match_apply match_recver e (ground arith) (ground arith) h
Turn-NoneConfirmed {f} {f'} (agrees i j _ _ _ e) h =
    both-NoneConfirmed f f' i j match_complete match_complete e (ground arith) (ground arith) h
Turn-NoneConfirmed {f} {f'} (declines i j _ _ _ e) h =
    both-NoneConfirmed f f' i j login login e (ground arith) (ground arith) h

Turns-NoneConfirmed : (n : ℕ) {f f' : Statuses} → Turns n f f' → NoneConfirmed f → NoneConfirmed f'
Turns-NoneConfirmed n (over e) h = rw e h
Turns-NoneConfirmed (suc n) (next g t ts) h = Turns-NoneConfirmed n ts (Turn-NoneConfirmed t h)

module _ {S D : Type 0} (x : External S D) (attempts : ℕ) where
  Steps-NoneConfirmed :
      {w w' : World S D} (steps : Steps x attempts w w')
      → NoneStray x attempts steps
      → NumbersInv w
      → NoneConfirmed (statuses w)
      → NoneConfirmed (statuses w')
  Steps-NoneConfirmed stay _ inv h = h
  Steps-NoneConfirmed (after before step) (live, live') inv h =
      Turns-NoneConfirmed 2
        (Step-Turns x attempts step live' (Steps-NumbersInv x attempts before live inv))
        (Steps-NoneConfirmed before live inv h)

  -- In no state that a server which has just been set up, with its lock free, reaches by steps
  -- without a fault, and without a packet for a session in WAIT, does a session have the status
  -- MATCH_CONFIRM: the packet that sets it closes the session before another step begins.
  never_confirmed :
      (w w' : World S D)
      → w.session_queue ≡ []
      → w.accepting ≡ []
      → w.session_queue_locked ≡ false
      → (steps : Steps x attempts (init w) w') → NoneStray x attempts steps
      → (k : ℕ) → stat_of k w' ≢ match_confirm
  unfolding init
  never_confirmed w w' e e' unlocked steps live =
      Steps-NoneConfirmed steps live (start-NumbersInv x attempts w e e' unlocked)
        (λ k. ground arith)
