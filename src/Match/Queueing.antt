-- ===== src/Match/Queueing.antt =====
-- What `get_matching_que` makes of a queue.
use jbjb.Base.{
  ℕ, ◌≤◌, ◌≡◌, refl, sym, ap, ◌≢◌, ◌⊎◌, inl, inr, Bool, true, false, some, List, [], ◌∷◌, ◌++◌,
  arith, length, ok, ◌==◌, ==_iff, Bool-cases, subst, ◌∙◌,
}
use jbjb.Match.Pairing.{Matched, HasFreshKey, make_matching-Matched}
use jbjb.Match.{is_waiting, take_players, select_players, get_matching_que}
use jbjb.Protocol.Status.{match_complete}
use mathlib.Core.Bool.{false≢true}
use native.Mathlib.Decide.{ℕ_discrete}
use jbjb.World.Access.{set_que}
use jbjb.World.{External, World}

module _ {S D : Type 0} (x : External S D) where
  pub data Outcome (r : ℕ) (w : World S D) : World S D → Bool → Type 0 where
    few : length (w.matching_que r) ≤ 1 → Outcome r w w false
    gone :
        {i : ℕ} {rest : List ℕ}
        → w.matching_que r ≡ i ∷ rest
        → is_waiting (w.sessions i) ≡ false
        → Outcome r w (set_que r rest w) false
    skipped :
        {i j : ℕ} {rest : List ℕ}
        → w.matching_que r ≡ i ∷ j ∷ rest
        → (is_waiting (w.sessions j) ≡ false) ⊎ (i ≡ j)
        → Outcome r w (set_que r (i ∷ rest) w) false
    paired :
        {i j : ℕ} {rest : List ℕ} {key : List ℕ} {w' : World S D}
        → w.matching_que r ≡ i ∷ j ∷ rest
        → is_waiting (w.sessions i) ≡ true
        → is_waiting (w.sessions j) ≡ true
        → i ≢ j
        → Matched x key i j (set_que r rest w) w'
        → Outcome r w w' true

  module _ (attempts : ℕ) where
    take_players-Outcome :
        (r : ℕ) (que : List ℕ) (w : World S D)
        → w.matching_que r ≡ que
        → HasFreshKey x attempts w
        → (w' : World S D) × (matched : Bool) × (take_players x attempts r que w ≡ ok (w', matched))
          × Outcome r w w' matched
    unfolding take_players
    take_players-Outcome r [] w e fresh = (w, false, refl, few (omega (arith, ap length e)))
    take_players-Outcome r (i ∷ []) w e fresh = (w, false, refl, few (omega (arith, ap length e)))
    take_players-Outcome r (i ∷ j ∷ rest) w e fresh =
        elim (Bool-cases (is_waiting (w.sessions i))) [
          | inr away ↦ (_, _, rw away refl, gone e away)
          | inl here ↦ elim (Bool-cases (is_waiting (w.sessions j))) [
            | inr away ↦ (_, _, rw (here, away) refl, skipped e (inl away))
            | inl there ↦ elim (Bool-cases (i == j)) [
              | inl same ↦
                  (_, _, rw (here, there, same) refl, skipped e (inr ((==_iff i j).0 same)))
              | inr apart ↦
                  let ne : i ≢ j = λ p. ground arith in
                  let (key, w', made, m) =
                    make_matching-Matched x attempts i j (set_que r rest w) ne fresh in
                  (w', true, rw (here, there, apart, made) refl, paired e here there ne m)
            ]
          ]
        ]

    -- The call returns, and ends in one of the four ways.
    pub get_matching_que-Outcome :
        (r : ℕ) (w : World S D)
        → HasFreshKey x attempts w
        → (w' : World S D) × (matched : Bool) × (get_matching_que x attempts r w ≡ ok (w', matched))
          × Outcome r w w' matched
    unfolding get_matching_que
    get_matching_que-Outcome r w = take_players-Outcome r (w.matching_que r) w refl

abbrev pub In : ℕ → List ℕ → Type 0
In k [] = ⊥
In k (i ∷ is) = (k ≡ i) ⊎ In k is

pub In-push : (k : ℕ) (is : List ℕ) → In k (is ++ k ∷ [])
In-push k [] = inl refl
In-push k (i ∷ is) = inr (In-push k is)

pub In-gone :
    (f : ℕ → Bool) (k i : ℕ) (rest : List ℕ)
    → f i ≡ false
    → f k ≡ true
    → In k (i ∷ rest)
    → In k rest
In-gone f k i rest away waits (inl e) = absurd (false≢true (sym away ∙ ap f (sym e) ∙ waits))
In-gone f k i rest away waits (inr at) = at

pub In-skipped :
    (f : ℕ → Bool) (k i j : ℕ) (rest : List ℕ)
    → (f j ≡ false) ⊎ (i ≡ j)
    → f k ≡ true
    → In k (i ∷ j ∷ rest)
    → In k (i ∷ rest)
In-skipped f k i j rest why waits (inl e) = inl e
In-skipped f k i j rest why waits (inr (inr at)) = inr at
In-skipped f k i j rest (inl away) waits (inr (inl e)) =
    absurd (false≢true (sym away ∙ ap f (sym e) ∙ waits))
In-skipped f k i j rest (inr same) waits (inr (inl e)) = inl (e ∙ sym same)

module _ {S D : Type 0} where
  -- Two different sessions that wait are selected.
  pub select_two :
      (r i j : ℕ) (w : World S D)
      → w.matching_que r ≡ i ∷ j ∷ []
      → is_waiting (w.sessions i) ≡ true
      → is_waiting (w.sessions j) ≡ true
      → i ≢ j
      → select_players r (w.matching_que r) w ≡ (set_que r [] w, some (i, j))
  unfolding select_players
  select_two r i j w e here there ne = rw e (ground (arith, here, there, ne, ==_iff i j))

  set_que_self : (r : ℕ) (que : List ℕ) (w : World S D) → que ≡ (set_que r que w).matching_que r
  set_que_self r que w = ground arith

module _ {S D : Type 0} (x : External S D) where
  Matched-waits :
      {key : List ℕ} {i j : ℕ} {w w' : World S D} (k : ℕ) (rest : List ℕ)
      → Matched x key i j w w'
      → In k (i ∷ j ∷ rest)
      → (In k rest × (w'.sessions k ≡ w.sessions k)) ⊎ ((w'.sessions k).stat ≡ match_complete)
  Matched-waits {w'} k rest m (inl e) = inr (ap (λ n. (w'.sessions n).stat) e ∙ m.first.stat)
  Matched-waits {w'} k rest m (inr (inl e)) = inr (ap (λ n. (w'.sessions n).stat) e ∙ m.second.stat)
  Matched-waits {i} {j} {w'} k rest m (inr (inr at)) = elim (ℕ_discrete k i) [
    | yes e ↦ inr (ap (λ n. (w'.sessions n).stat) e ∙ m.first.stat)
    | no ne ↦ elim (ℕ_discrete k j) [
      | yes e ↦ inr (ap (λ n. (w'.sessions n).stat) e ∙ m.second.stat)
      | no ne' ↦ inl (at, m.others k ne ne')
    ]
  ]

  -- A session that waits in the queue still does so, or has been matched.
  Outcome-waits :
      (r : ℕ) {w w' : World S D} {matched : Bool} (k : ℕ)
      → Outcome x r w w' matched
      → is_waiting (w.sessions k) ≡ true
      → In k (w.matching_que r)
      → (In k (w'.matching_que r) × (w'.sessions k ≡ w.sessions k))
        ⊎ ((w'.sessions k).stat ≡ match_complete)
  Outcome-waits r k (few h) waits at = inl (at, refl)
  Outcome-waits r {w} k (gone {i} {rest} e away) waits at =
      let at' : In k rest =
        In-gone (λ n. is_waiting (w.sessions n)) k i rest away waits (subst (In k) e at) in
      inl (subst (In k) (set_que_self r rest w) at', refl)
  Outcome-waits r {w} k (skipped {i} {j} {rest} e why) waits at =
      let at' : In k (i ∷ rest) =
        In-skipped (λ n. is_waiting (w.sessions n)) k i j rest why waits (subst (In k) e at) in
      inl (subst (In k) (set_que_self r (i ∷ rest) w) at', refl)
  Outcome-waits r {w} k (paired {rest} e here there ne m) waits at =
      elim (Matched-waits k rest m (subst (In k) e at)) [
        | inl (at', same) ↦ inl (
          subst (In k) (set_que_self r rest w ∙ sym (ap (λ (q : ℕ → List ℕ). q r) m.queues)) at',
          same,
        )
        | inr done ↦ inr done
      ]

  -- A match takes the two oldest entries of the queue, two different sessions that were both open
  -- and waiting, and gives them one new room; without a match no session changes.
  abbrev pub Sound : ℕ → World S D → World S D → Bool → Type 0
  Sound r w w' true =
      (i : ℕ) × (j : ℕ) × (rest : List ℕ) × (key : List ℕ) × (w.matching_que r ≡ i ∷ j ∷ rest)
      × (i ≢ j)
      × (is_waiting (w.sessions i) ≡ true)
      × (is_waiting (w.sessions j) ≡ true)
      × Matched x key i j (set_que r rest w) w'
  Sound r w w' false = w'.sessions ≡ w.sessions

  Outcome-Sound :
      (r : ℕ) {w w' : World S D} {matched : Bool} → Outcome x r w w' matched → Sound r w w' matched
  Outcome-Sound r (few h) = refl
  Outcome-Sound r (gone e away) = refl
  Outcome-Sound r (skipped e why) = refl
  Outcome-Sound r (paired e here there ne m) = (_, _, _, _, e, ne, here, there, m)

  -- No session that waits in the queue is forgotten: it stays there, unchanged, or is matched.
  abbrev pub NoneForgotten : ℕ → World S D → World S D → Type 0
  NoneForgotten r w w' =
      (k : ℕ)
      → is_waiting (w.sessions k) ≡ true
      → In k (w.matching_que r)
      → (In k (w'.matching_que r) × (w'.sessions k ≡ w.sessions k))
        ⊎ ((w'.sessions k).stat ≡ match_complete)

  -- If one of the next room keys is not in Redis, `get_matching_que` returns. If it reports a
  -- match, it took the two oldest entries, which are two different, open and waiting sessions, and
  -- gave them one new room; if not, no session has changed. In both cases every session that waits
  -- in the queue stays there or is matched.
  pub get_matching_que-Sound :
      (attempts r : ℕ) (w : World S D)
      → HasFreshKey x attempts w
      → (w' : World S D) × (matched : Bool) × (get_matching_que x attempts r w ≡ ok (w', matched))
        × Sound r w w' matched
        × NoneForgotten r w w'
  get_matching_que-Sound attempts r w fresh =
      let (w', matched, e, o) = get_matching_que-Outcome x attempts r w fresh in
      (w', matched, e, Outcome-Sound r o, λ k waits at. Outcome-waits r k o waits at)
