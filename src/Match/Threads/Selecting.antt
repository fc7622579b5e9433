-- ===== src/Match/Threads/Selecting.antt =====
-- What the first half of `get_matching_que` selects.
use jbjb.Base.{
  ℕ, ◌≡◌, refl, sym, subst, ◌≢◌, ◌⊎◌, inl, inr, not, ◌||◌, Option, none, some, List, [], ◌∷◌, arith,
  ◌==◌, ==_iff, if_ind,
}
use jbjb.Match.Queueing.{In}
use jbjb.Match.Waiters.{Waiting}
use jbjb.Match.{is_waiting, select_players}
use jbjb.World.Access.{set_que}
use jbjb.World.{World}

-- A session is one of the players.
abbrev pub Selected : ℕ → Option (ℕ × ℕ) → Type 0
Selected k none = ⊥
Selected k (some (i, j)) = (k ≡ i) ⊎ (k ≡ j)

module _ {S D : Type 0} where
  -- Entries of one queue are taken out, and the players were two different ones that wait.
  pub record Selects (r : ℕ) (w : World S D) (p : World S D × Option (ℕ × ℕ)) : Type 0 where
    pub sessions : p.0.sessions ≡ w.sessions
    pub timer_value : p.0.timer_value ≡ w.timer_value
    pub queues : (k h : ℕ) → In k (p.0.matching_que h) → In k (w.matching_que h)
    pub found : (k : ℕ) → Selected k p.1 → In k (w.matching_que r) × Waiting k w
    pub apart : (i j : ℕ) → p.1 ≡ some (i, j) → i ≢ j

  In-set_que :
      (r : ℕ) (que : List ℕ) (w : World S D)
      → ((k : ℕ) → In k que → In k (w.matching_que r))
      → (k h : ℕ) → In k ((set_que r que w).matching_que h)
      → In k (w.matching_que h)
  In-set_que r que w less k h =
      if_ind (λ (q : List ℕ). In k q → In k (w.matching_que h)) (r == h)
        (λ same at. subst (λ n. In k (w.matching_que n)) ((==_iff r h).0 same) (less k at))
        (λ _ at. at)

  unselected :
      (r : ℕ) (que : List ℕ) (w : World S D)
      → ((k : ℕ) → In k que → In k (w.matching_que r))
      → Selects r w (set_que r que w, none)
  unselected r que w less = record {
    sessions = refl;
    timer_value = refl;
    queues = In-set_que r que w less;
    found = λ k at. absurd at;
    apart = λ i j e. cc;
  }

  select_players-Selects :
      (r : ℕ) (que : List ℕ) (w : World S D)
      → w.matching_que r ≡ que
      → Selects r w (select_players r que w)
  unfolding select_players
  select_players-Selects r [] w e = record {
    sessions = refl;
    timer_value = refl;
    queues = λ k h at. at;
    found = λ k at. absurd at;
    apart = λ i j e. cc;
  }
  select_players-Selects r (i ∷ []) w e = record {
    sessions = refl;
    timer_value = refl;
    queues = λ k h at. at;
    found = λ k at. absurd at;
    apart = λ i j e. cc;
  }
  select_players-Selects r (i ∷ j ∷ rest) w e =
      let back : (k : ℕ) → In k (i ∷ j ∷ rest) → In k (w.matching_que r) =
        λ k. subst (In k) (sym e) in
      if_ind (Selects r w) (not (is_waiting (w.sessions i)))
        (λ _. unselected r (j ∷ rest) w (λ k at. back k (inr at)))
        λ here.
          if_ind (Selects r w) (not (is_waiting (w.sessions j)) || i == j)
            (λ _. unselected r (i ∷ rest) w (λ k at. back k (skip k at)))
            λ there. record {
              sessions = refl;
              timer_value = refl;
              queues = In-set_que r rest w (λ k at. back k (inr (inr at)));
              found = λ k at. elim at [
                | inl same ↦ (back k (inl same), ground (arith, here, same))
                | inr same ↦ (back k (inr (inl same)), ground (arith, there, same))
              ];
              apart = λ a b same. ground (arith, there, same, ==_iff i j);
            }
    where
      skip : (k : ℕ) → In k (i ∷ rest) → In k (i ∷ j ∷ rest)
      skip k (inl same) = inl same
      skip k (inr at) = inr (inr at)

  pub select-Selects : (r : ℕ) (w : World S D) → Selects r w (select_players r (w.matching_que r) w)
  select-Selects r w = select_players-Selects r (w.matching_que r) w refl
