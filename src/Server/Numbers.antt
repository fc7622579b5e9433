-- ===== src/Server/Numbers.antt =====
-- Where the number of a session is: in the queue of free ones, with an `async_accept` under way, or
-- with a connection.
use jbjb.Base.{
  ℕ, zero, suc, ◌+◌, ◌≤◌, ◌<◌, ◌≡◌, refl, inl, inr, true, false, List, [], ◌∷◌, ◌++◌, arith, ok,
  ◌==◌, if◌then◌else◌, Bool-cases, ltb, leb, ◌&&◌,
}
use jbjb.Protocol.Status.{Status, wait, is_status, is_status_iff}
use jbjb.Server.Closing.{is_closable}
use jbjb.Server.{init, numbers_from, without, accept_front, wait_accept, accept_over, accepted}
use jbjb.World.{World}

abbrev pub count : ℕ → List ℕ → ℕ
count k [] = 0
count k (i ∷ is) = (if i == k then 1 else 0) + count k is

pub count-append : (k : ℕ) (is js : List ℕ) → count k (is ++ js) ≡ count k is + count k js
count-append k [] js = omega arith
count-append k (i ∷ is) js = omega (arith, count-append k is js)

pub count-without :
    (k i : ℕ) (is : List ℕ)
    → 0 < count i is
    → count k (without i is) + (if i == k then 1 else 0) ≡ count k is
unfolding without
count-without k i [] h = absurd (omega arith)
count-without k i (j ∷ is) h = elim (Bool-cases (j == i)) [
  | inl same ↦ ground (arith, same)
  | inr apart ↦
      let below : 0 < count i is = ground (arith, apart, h) in
      ground (arith, apart, count-without k i is below)
]

pub count-numbers_from :
    (k i n : ℕ) → count k (numbers_from i n) ≡ (if leb i k && ltb k (i + n) then 1 else 0)
unfolding numbers_from
count-numbers_from k i zero = ground arith
count-numbers_from k i (suc n) = ground (arith, count-numbers_from k (i + 1) n)

abbrev busy_of : Status → ℕ
busy_of a = if is_status a wait then 0 else 1

pub busy_wait : (a : Status) → busy_of a ≡ 0 → a ≡ wait
busy_wait a h = ground (arith, h, is_status_iff a wait)

pub closable-busy : (a : Status) → is_closable a ≡ true → is_status a wait ≡ false
closable-busy a h = ground (arith, h)

module _ {S D : Type 0} where
  -- Whether a session has a connection.
  abbrev pub busy : ℕ → World S D → ℕ
  busy k w = busy_of (w.sessions k).stat

  -- In how many places a number is.
  abbrev pub places : ℕ → World S D → ℕ
  places k w = count k w.session_queue + count k w.accepting + busy k w

  pub accept_front-places :
      (k : ℕ) (queue : List ℕ) (w : World S D)
      → w.session_queue ≡ queue
      → places k (accept_front queue w).0 ≡ places k w
  unfolding accept_front
  accept_front-places k [] w e = refl
  accept_front-places k (i ∷ rest) w e = rw e (ground (arith, count-append k w.accepting (i ∷ [])))

  pub accept_front-locked :
      (queue : List ℕ) (w : World S D)
      → (accept_front queue w).0.session_queue_locked ≡ w.session_queue_locked
  unfolding accept_front
  accept_front-locked [] w = refl
  accept_front-locked (i ∷ rest) w = refl

  pub accepted-places :
      (k i : ℕ) (w : World S D)
      → 0 < count i w.accepting
      → (w.sessions i).stat ≡ wait
      → places k (accepted i (accept_over i w)) ≡ places k w
  unfolding accepted accept_over
  accepted-places k i w under free = ground (arith, count-without k i w.accepting under)

  pub error-places :
      (k i : ℕ) (w : World S D) → 0 < count i w.accepting → places k (accept_over i w) ≤ places k w
  unfolding accept_over
  error-places k i w under = ground (arith, count-without k i w.accepting under)

  -- When the server has been set up, each number below `max_session_count` is in one place.
  pub init-places :
      (k : ℕ) (w : World S D) → w.session_queue ≡ [] → w.accepting ≡ [] → places k (init w) ≤ 1
  unfolding init
  init-places k w e e' = ground (arith, e, e', count-numbers_from k 0 w.max_session_count)

  -- No number is in two places, and nobody holds the lock between two steps.
  pub record NumbersInv (w : World S D) : Type 0 where
    pub apart : (k : ℕ) → places k w ≤ 1
    pub unlocked : w.session_queue_locked ≡ false

  pub wait_accept-front :
      (w : World S D)
      → w.session_queue_locked ≡ false
      → wait_accept w ≡ ok (accept_front w.session_queue w)
  unfolding wait_accept
  wait_accept-front w unlocked = rw unlocked refl
