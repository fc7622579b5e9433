-- ===== src/Server/Counting.antt =====
-- The count of connections, beside the statuses of the sessions.
use jbjb.Base.{ℕ, zero, suc, ◌+◌, ◌<◌, ◌≤◌, ◌≡◌, refl, ◌≢◌, arith}
use jbjb.Base.Int.{pos, ◌-ℤ◌}
use native.Mathlib.Decide.{ℕ_discrete}
use jbjb.Server.Numbers.{busy, places}
use jbjb.World.{World}

-- The sum of the first `n` values.
abbrev pub total : ℕ → (ℕ → ℕ) → ℕ
total zero f = 0
total (suc n) f = total n f + f n

pub total-congr : (n : ℕ) {f g : ℕ → ℕ} → ((k : ℕ) → f k ≡ g k) → total n f ≡ total n g
total-congr zero same = refl
total-congr (suc n) same = omega (arith, total-congr n same, same n)

pub total-le : (n : ℕ) {f : ℕ → ℕ} → ((k : ℕ) → f k ≤ 1) → total n f ≤ n
total-le zero most = omega arith
total-le (suc n) most = omega (arith, total-le n most, most n)

total-below :
    (n : ℕ) {f g : ℕ → ℕ} (i : ℕ) → n ≤ i → ((k : ℕ) → k ≢ i → f k ≡ g k) → total n f ≡ total n g
total-below zero i h same = refl
total-below (suc n) i h same =
    omega (arith, total-below n i (omega (arith, h)) same, same n (omega (arith, h)))

-- One value grows by one.
pub total-grows :
    (n : ℕ) {f g : ℕ → ℕ} (i : ℕ)
    → i < n
    → ((k : ℕ) → k ≢ i → g k ≡ f k)
    → g i ≡ f i + 1
    → total n g ≡ total n f + 1
total-grows zero i h same grown = absurd (omega arith)
total-grows (suc n) {f} {g} i h same grown = elim (ℕ_discrete i n) [
  | yes last ↦
      let here : g n ≡ f n + 1 = rw⁻¹ last grown in
      omega (arith, total-below n {f = g} {g = f} i (omega (arith, last)) same, here)
  | no apart ↦ omega (
    arith,
    total-grows n i (omega (arith, h, apart)) same grown,
    same n (λ e. apart (omega (arith, e))),
  )
]

module _ {S D : Type 0} where
  -- How many of the sessions below `n` have a connection.
  abbrev pub open_count : ℕ → World S D → ℕ
  open_count n w = total n (λ k. busy k w)

  -- The count of connections is that of the sessions below `n` that have one, and no other number
  -- is in any place.
  pub record Counted (n : ℕ) (w : World S D) : Type 0 where
    pub within : (k : ℕ) → n ≤ k → places k w ≡ 0
    pub counted : w.connections ≡ pos (open_count n w)

pub pos-suc_back : (n : ℕ) → pos (n + 1) -ℤ pos 1 ≡ pos n
unfolding ◌-ℤ◌
pos-suc_back n = ground arith
