-- ===== src/Match/Waiters.antt =====
-- The sessions that wait for a game, and the queues that they are in.
use jbjb.Base.{ℕ, ◌≡◌, [], sym, subst, true, ◌⊎◌, inl, inr, List, ◌∷◌, ◌++◌, ◌==◌, if_ind, ==_iff}
use jbjb.Match.Queueing.{In}
use jbjb.Match.{is_waiting}
use jbjb.World.Access.{set_que}
use jbjb.World.{World}

pub In-append : (k : ℕ) (is js : List ℕ) → In k is → In k (is ++ js)
In-append k [] js at = absurd at
In-append k (i ∷ is) js (inl e) = inl e
In-append k (i ∷ is) js (inr at) = inr (In-append k is js at)

module _ {S D : Type 0} where
  abbrev pub Waiting : ℕ → World S D → Type 0
  Waiting k w = is_waiting (w.sessions k) ≡ true

  -- A session is in one of the queues.
  abbrev pub Queued : ℕ → World S D → Type 0
  Queued k w = (r : ℕ) × In k (w.matching_que r)

  -- Whoever waits afterwards is in a queue, or has waited before and is not taken out of the
  -- queues.
  pub record Waits (w w' : World S D) : Type 0 where
    pub waiter : (k : ℕ) → Waiting k w' → Queued k w' ⊎ (Waiting k w × (Queued k w → Queued k w'))

  pub Waits-Queued :
      {w w' : World S D}
      → Waits w w'
      → ((k : ℕ) → Waiting k w → Queued k w)
      → (k : ℕ) → Waiting k w'
      → Queued k w'
  Waits-Queued p queued k h = elim (p.waiter k h) [
    | inl at ↦ at
    | inr (h', keeps) ↦ keeps (queued k h')
  ]

  pub Waits-refl : {w : World S D} → Waits w w
  Waits-refl = record { waiter = λ k h. inr (h, λ at. at) }

  pub Waits-trans : {u v w : World S D} → Waits u v → Waits v w → Waits u w
  Waits-trans p q = record {
    waiter = λ k h. elim (q.waiter k h) [
      | inl at ↦ inl at
      | inr (h', keeps) ↦ elim (p.waiter k h') [
        | inl at ↦ inl (keeps at)
        | inr (h'', keeps') ↦ inr (h'', λ at. keeps (keeps' at))
      ]
    ];
  }

  -- The queues are as they were.
  pub same-Waits :
      {w w' : World S D}
      → w'.matching_que ≡ w.matching_que
      → ((k : ℕ) → Waiting k w' → Queued k w ⊎ Waiting k w)
      → Waits w w'
  same-Waits {w} {w'} same waits = record {
    waiter = λ k h.
        let keeps : Queued k w → Queued k w' =
          λ (r, at). (r, subst (λ (q : ℕ → List ℕ). In k (q r)) (sym same) at) in
        elim (waits k h) [ inl at ↦ inl (keeps at) | inr h' ↦ inr (h', keeps) ];
  }

  -- One queue changes, and keeps all who wait.
  pub set_que-Waits :
      (r : ℕ) (que : List ℕ) (w : World S D)
      → ((k : ℕ) → Waiting k w → In k (w.matching_que r) → In k que)
      → Waits w (set_que r que w)
  set_que-Waits r que w kept = record {
    waiter = λ k h. inr (
      h,
      λ (r', at). (
        r',
        if_ind (In k) (r == r')
            (λ same.
              kept k h (subst (λ n. In k (w.matching_que n)) (sym ((==_iff r r').0 same)) at))
            (λ _. at),
      ),
    );
  }
