-- ===== src/Db/Slots.antt =====
-- `db_connector::init`: the numbers in the queue, and their places in the pool.
use jbjb.Base.{
  ℕ, zero, suc, sym, ◌∙◌, ◌≢◌, ◌↔◌, ok, fault, out_of_range, fault-ne-ok, ◌+◌, ◌<◌, ◌≤◌, ◌≡◌, refl,
  ap, Bool, true, false, List, [], ◌∷◌, ◌++◌, subst, arith, length, All,
}
use jbjb.Db.Connections.{IsIndex}
use jbjb.Db.{init, close_pool}
use native.Mathlib.Decide.{ℕ_discrete}

abbrev pub count_made : List Bool → ℕ
count_made [] = 0
count_made (true ∷ answers) = suc (count_made answers)
count_made (false ∷ answers) = count_made answers

-- The pool has a place for each connection that was made, and the queue a number.
pub length-init :
    (i : ℕ) (answers : List Bool)
    → (length (init i answers).0 ≡ count_made answers)
      × (length (init i answers).1 ≡ count_made answers)
unfolding init
length-init i [] = (refl, refl)
length-init i (true ∷ answers) = let (p, q) = length-init (i + 1) answers in (ap suc p, ap suc q)
length-init i (false ∷ answers) = length-init (i + 1) answers

init_below :
    (bound i : ℕ) (answers : List Bool)
    → i + length answers ≤ bound
    → All (λ k. k < bound) (init i answers).1
unfolding init
init_below bound i [] h = tt
init_below bound i (true ∷ answers) h =
    (omega arith, init_below bound (i + 1) answers (omega arith))
init_below bound i (false ∷ answers) h = init_below bound (i + 1) answers (omega arith)

-- If every connection is made, each number in the queue has its place in the pool.
pub init_complete :
    (answers : List Bool)
    → count_made answers ≡ length answers
    → All (IsIndex (init 0 answers).0) (init 0 answers).1
init_complete answers h =
    init_below (length (init 0 answers).0) 0 answers (omega (arith, (length-init 0 answers).0))

count_made-append :
    (answers : List Bool) → count_made (answers ++ true ∷ []) ≡ suc (count_made answers)
count_made-append [] = refl
count_made-append (true ∷ answers) = ap suc (count_made-append answers)
count_made-append (false ∷ answers) = count_made-append answers

last_slot :
    (P : ℕ → Type 0) (i : ℕ) (answers : List Bool)
    → All P (init i (answers ++ true ∷ [])).1
    → P (i + length answers)
unfolding init
last_slot P i [] h = let e : i ≡ i + 0 = omega arith in subst P e h.0
last_slot P i (true ∷ answers) h =
    let e : i + 1 + length answers ≡ i + suc (length answers) = omega arith in
    subst P e (last_slot P (i + 1) answers h.1)
last_slot P i (false ∷ answers) h =
    let e : i + 1 + length answers ≡ i + suc (length answers) = omega arith in
    subst P e (last_slot P (i + 1) answers h)

-- If a connection is made after one that is not, some number in the queue has no place in the pool.
init_gap :
    (answers : List Bool)
    → count_made answers < length answers
    → let made = init 0 (answers ++ true ∷ []) in ¬ All (IsIndex made.0) made.1
init_gap answers h all = omega (
  arith,
  last_slot (IsIndex (init 0 (answers ++ true ∷ [])).0) 0 answers all,
  (length-init 0 (answers ++ true ∷ [])).0,
  count_made-append answers,
)

made_most : (answers : List Bool) → count_made answers ≤ length answers
made_most [] = omega arith
made_most (true ∷ answers) = omega (arith, made_most answers)
made_most (false ∷ answers) = omega (arith, made_most answers)

close_pool-whole : (pool : List ℕ) → close_pool (length pool) pool ≡ ok pool
unfolding close_pool
close_pool-whole [] = refl
close_pool-whole (c ∷ pool) = rw (close_pool-whole pool) refl

close_pool-short :
    (n : ℕ) (pool : List ℕ) → length pool < n → close_pool n pool ≡ fault out_of_range
unfolding close_pool
close_pool-short zero pool h = absurd (omega arith)
close_pool-short (suc n) [] h = refl
close_pool-short (suc n) (c ∷ pool) h = rw (close_pool-short n pool (omega arith)) refl

-- The destructor closes the connections of the pool, each once and in their order, exactly if every
-- connection was made. Otherwise it reads behind the end of the pool.
pub close_pool-made :
    (answers : List Bool)
    → ((close_pool (length answers) (init 0 answers).0 ≡ ok (init 0 answers).0)
        ↔ (count_made answers ≡ length answers))
      × (count_made answers ≢ length answers
          → close_pool (length answers) (init 0 answers).0 ≡ fault out_of_range)
close_pool-made answers =
    let made = (length-init 0 answers).0 in
    let short : count_made answers ≢ length answers
        → close_pool (length answers) (init 0 answers).0 ≡ fault out_of_range =
      λ ne.
        close_pool-short (length answers) (init 0 answers).0
          (omega (arith, made, made_most answers, ne)) in
    (
      (
        (λ e. elim (ℕ_discrete (count_made answers) (length answers)) [
          | yes all ↦ all
          | no ne ↦ absurd (fault-ne-ok (sym (short ne) ∙ e))
        ]),
        λ all.
            subst (λ n. close_pool n (init 0 answers).0 ≡ ok (init 0 answers).0) (made ∙ all)
              (close_pool-whole (init 0 answers).0),
      ),
      short,
    )
