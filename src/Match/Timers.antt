-- ===== src/Match/Timers.antt =====
-- Two sessions whose timers run out: the queue that all classes share.
use jbjb.Base.{ℕ, ◌≡◌, refl, ◌≢◌, true, none, [], ◌∷◌, arith, ok, ◌>>=◌, false, ◌==◌, ==_iff}
use jbjb.Base.Texts.{Text}
use jbjb.Match.Pairing.{HasFreshKey, make_matching-Matched}
use jbjb.Match.Rating.{shared_que}
use jbjb.Match.{
  rematching_start, get_matching_que, take_players, make_matching_and_send_complete, is_waiting,
}
use jbjb.Protocol.Status.{match_request, match_complete, is_status_iff}
use jbjb.World.Access.{set_que}
use jbjb.World.{External, World}

module _ {S D : Type 0} (x : External S D) (attempts : ℕ) where
  -- The first one is alone in the queue.
  rematching_start_alone :
      (i : ℕ) (w : World S D)
      → w.matching_que shared_que ≡ []
      → (w.sessions i).stat ≡ match_request
      → rematching_start x attempts i w ≡ ok (set_que shared_que (i ∷ []) w)
  unfolding rematching_start get_matching_que take_players
  rematching_start_alone i w empty asks = rw (empty, asks) refl

  -- The second one meets the first.
  rematching_start_meets :
      (i j : ℕ) (w w' : World S D)
      → i ≢ j
      → w.matching_que shared_que ≡ i ∷ []
      → is_waiting (w.sessions i) ≡ true
      → is_waiting (w.sessions j) ≡ true
      → make_matching_and_send_complete x attempts i j
          (set_que shared_que [] (set_que shared_que (i ∷ j ∷ []) w))
        ≡ ok w'
      → rematching_start x attempts j w ≡ ok w'
  unfolding rematching_start get_matching_que take_players
  rematching_start_meets i j w w' ne alone here there made =
      let apart : (i == j) ≡ false = ground (arith, ne, ==_iff i j) in
      let asks : (w.sessions j).stat ≡ match_request =
        ground (arith, there, is_status_iff (w.sessions j).stat match_request) in
      let opened : (w.sessions j).is_open ≡ true = ground (arith, there) in
      rw (alone, here, asks, opened, apart, made) refl

  -- Two open sessions that wait for a game, of whatever classes, while the queue that all classes
  -- share is empty and one of the next room keys is not in Redis: when the timer of the one and
  -- then that of the other has run out, both are matched, with the key of one room that is new.
  both_timers-Matched :
      (i j : ℕ) (w : World S D)
      → i ≢ j
      → HasFreshKey x attempts w
      → w.matching_que shared_que ≡ []
      → is_waiting (w.sessions i) ≡ true
      → is_waiting (w.sessions j) ≡ true
      → (key : Text) × (w' : World S D) × ((rematching_start x attempts i w
            >>= rematching_start x attempts j)
          ≡ ok w')
        × ((w'.sessions i).stat ≡ match_complete)
        × ((w'.sessions j).stat ≡ match_complete)
        × ((w'.sessions i).room_key ≡ key)
        × ((w'.sessions j).room_key ≡ key)
        × (x.get_redis_kv w.redis key ≡ none)
  both_timers-Matched i j w ne fresh empty here there =
      let asks : (w.sessions i).stat ≡ match_request =
        ground (arith, here, is_status_iff (w.sessions i).stat match_request) in
      let w₁ : World S D = set_que shared_que (i ∷ []) w in
      let w₂ : World S D = set_que shared_que [] (set_que shared_que (i ∷ j ∷ []) w₁) in
      let (key, w', made, m) = make_matching-Matched x attempts i j w₂ ne fresh in
      (
        key,
        w',
        rw (rematching_start_alone i w empty asks)
            (rematching_start_meets i j w₁ w' ne (ground arith) here there made),
        m.first.stat,
        m.second.stat,
        m.first.room_key,
        m.second.room_key,
        m.fresh,
      )
