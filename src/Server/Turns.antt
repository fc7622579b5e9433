-- ===== src/Server/Turns.antt =====
-- The abstract server: the statuses of the sessions, and what can happen to them. It forgets the
-- users, the queues and the packets of the server.
use jbjb.Base.{ℕ, suc, suc_left, suc_right, ◌+◌, ◌≡◌, ◌≢◌, subst, false, true}
use jbjb.Base.Update.{update}
use jbjb.Protocol.Status.{
  Status, wait, conn, login, logout, match_request, match_apply, match_recver, match_complete,
  is_status,
}
use jbjb.Server.Closing.{is_closable}

-- What the sessions show of the server.
abbrev pub Statuses : Type 0
Statuses = ℕ → Status

-- The abstract server: what can happen to the statuses at once.
pub data Turn (f f' : Statuses) : Type 0 where
  connects : (i : ℕ) → f i ≡ wait → f' ≡ update f i conn → Turn f f'
  leaves : (i : ℕ) → is_closable (f i) ≡ true → f' ≡ update f i wait → Turn f f'
  joins : (i : ℕ) → is_status (f i) wait ≡ false → f' ≡ update f i login → Turn f f'
  quits : (i : ℕ) → is_status (f i) wait ≡ false → f' ≡ update f i logout → Turn f f'
  asks : (i : ℕ) → is_status (f i) wait ≡ false → f' ≡ update f i match_request → Turn f f'
  meets :
      (i j : ℕ)
      → i ≢ j
      → f i ≡ match_request
      → f j ≡ match_request
      → f' ≡ update (update f i match_complete) j match_complete
      → Turn f f'
  invites :
      (i j : ℕ)
      → i ≢ j
      → f i ≡ login
      → f j ≡ login
      → f' ≡ update (update f i match_apply) j match_recver
      → Turn f f'
  agrees :
      (i j : ℕ)
      → i ≢ j
      → f i ≡ match_recver
      → f j ≡ match_apply
      → f' ≡ update (update f i match_complete) j match_complete
      → Turn f f'
  declines :
      (i j : ℕ)
      → i ≢ j
      → f i ≡ match_recver
      → f j ≡ match_apply
      → f' ≡ update (update f i login) j login
      → Turn f f'

-- At most `n` turns.
pub data Turns : ℕ → Statuses → Statuses → Type 0 where
  over : {n : ℕ} {f f' : Statuses} → f' ≡ f → Turns n f f'
  next : {n : ℕ} {f f' : Statuses} (g : Statuses) → Turn f g → Turns n g f' → Turns (suc n) f f'

Turns-more : (m n : ℕ) {f f' : Statuses} → Turns n f f' → Turns (m + n) f f'
Turns-more m n (over e) = over e
Turns-more m (suc n) {f} {f'} (next g t ts) =
    subst (λ k. Turns k f f') (suc_right m n) (next g t (Turns-more m n ts))

pub Turns-trans : (m n : ℕ) {f g h : Statuses} → Turns m f g → Turns n g h → Turns (m + n) f h
Turns-trans m n {f} {g} {h} (over e) ts = subst (λ k. Turns (m + n) k h) e (Turns-more m n ts)
Turns-trans (suc m) n {f} {g} {h} (next k t ts) us =
    subst (λ l. Turns l f h) (suc_left m n) (next k t (Turns-trans m n ts us))
