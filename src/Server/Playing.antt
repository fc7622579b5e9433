-- ===== src/Server/Playing.antt =====
-- A whole game by rank, packet by packet: two requests, the match, and the two confirmations.
pub mod Leaving
use jbjb.Server.Playing.Leaving.{confirm-Left, find-del_id_other, find-del_id_self}
use jbjb.Base.{
  ℕ, ◌≡◌, refl, sym, ap, subst, ◌∙◌, ◌≢◌, true, false, none, List, [], ◌∷◌, ◌++◌, arith,
  append_assoc, ok, ◌>>=◌, ==_iff, Ends-eq_ok,
}
use jbjb.Base.Int.{pos, ◌-ℤ◌}
use jbjb.Base.Texts.{Text, codes, find}
use jbjb.Match.Meeting.{alone, alone-Alone, met, process_matching-alone, process_matching-meets}
use jbjb.Match.Pairing.{HasFreshKey, Matched, make_matching-Matched}
use jbjb.Match.Rating.{rating_code, check_rating}
use jbjb.Match.Requests.{class_of}
use jbjb.Match.{is_waiting, process_matching}
use jbjb.Protocol.Messages.{play_rank_req, type_code, match_confirm}
use jbjb.Protocol.Status.{wait, login, is_status}
use jbjb.Protocol.{header_type}
use jbjb.Server.Confirming.{still-HasFreshKey}
use jbjb.Server.Lifecycle.Requests.{process_matching-Progress}
use jbjb.Server.Lifecycle.{stat_of, Kept, Kept-trans, Progress}
use jbjb.Server.{dispatch, process_packet}
use jbjb.World.{Session, External, World}

module _ {S D : Type 0} where
  -- Two sessions have played: both have left, in this order, and the room that they were told is
  -- the only new one in Redis.
  pub record Played (x : External S D) (i j : ℕ) (key : Text) (w w' : World S D) : Type 0 where
    pub fresh : x.get_redis_kv w.redis key ≡ none
    pub registered : w'.redis ≡ x.set_redis_kv w.redis key (codes "0")
    pub room_keys : ((w'.sessions i).room_key ≡ key) × ((w'.sessions j).room_key ≡ key)
    pub freed : w'.session_queue ≡ w.session_queue ++ i ∷ j ∷ []
    pub stats : (stat_of i w' ≡ wait) × (stat_of j w' ≡ wait)
    pub closed : ((w'.sessions i).is_open ≡ false) × ((w'.sessions j).is_open ≡ false)
    pub connections : w'.connections ≡ w.connections -ℤ pos 1 -ℤ pos 1
    pub gone_i : find (w.sessions i).user_id w'.user_id_map ≡ none
    pub gone_j : find (w.sessions j).user_id w'.user_id_map ≡ none
    pub unqueued : w'.matching_que (class_of j w) ≡ []
    pub others : (k : ℕ) → k ≢ i → k ≢ j → w'.sessions k ≡ w.sessions k

module _ {S D : Type 0} (x : External S D) (attempts : ℕ) where
  packet-request :
      (i : ℕ) (request : Text) (w : World S D)
      → header_type request ≡ type_code play_rank_req
      → process_packet x attempts i request w ≡ process_matching x attempts i w
  unfolding process_packet dispatch
  packet-request i request w is = rw is refl

  -- What a request leaves as it was besides.
  request-Kept :
      (i : ℕ) (w w' : World S D)
      → stat_of i w ≡ login
      → process_matching x attempts i w ≡ ok w'
      → Kept w w'
  request-Kept i w w' stat e =
      (Ends-eq_ok (Progress 2 w) e
        (process_matching-Progress x attempts i w (ap (λ s. is_status s wait) stat))).kept

  -- The two requests.
  rank_match :
      (i j : ℕ) (w : World S D)
      → i ≢ j
      → stat_of i w ≡ login
      → stat_of j w ≡ login
      → (w.sessions i).is_open ≡ true
      → (w.sessions j).is_open ≡ true
      → class_of i w ≡ class_of j w
      → w.matching_que (class_of j w) ≡ []
      → HasFreshKey x attempts w
      → (key : Text) × (w' : World S D) × (process_matching x attempts i w ≡ ok (alone i w))
        × (process_matching x attempts j (alone i w) ≡ ok w')
        × Matched x key i j (met j (alone i w)) w'
        × Kept w w'
  rank_match i j w ne stat stat' opened opened' class' empty fresh =
      let w₁ : World S D = alone i w in
      let a = alone-Alone i w in
      let first = process_matching-alone x attempts i w (ap w.matching_que class' ∙ empty) in
      let class₁ : class_of j w₁ ≡ class_of i w =
        ap (λ v. rating_code (check_rating v)) (a.rating j) ∙ sym class' in
      let que : w₁.matching_que (class_of j w₁) ≡ i ∷ [] =
        ap w₁.matching_que class₁ ∙ a.que (ap w.matching_que class' ∙ empty) in
      let waits : is_waiting (w₁.sessions i) ≡ true =
        ground (arith, a.waits, a.is_open i, opened) in
      let (key, w₂, made, m) =
        make_matching-Matched x attempts i j (met j w₁) ne
          (still-HasFreshKey x attempts w w₁ a.redis a.drawn fresh) in
      let second =
        process_matching-meets x attempts i j w₁ w₂ ne que waits (a.is_open j ∙ opened') made in
      let stat₁ : stat_of j w₁ ≡ login =
        ap (λ (s : Session). s.stat) (a.others j (λ e. ne (sym e))) ∙ stat' in
      (
        key,
        w₂,
        first,
        second,
        m,
        Kept-trans (request-Kept i w w₁ stat first) (request-Kept j w₁ w₂ stat₁ second),
      )

  -- Two different open sessions are in LOGIN, their ratings are of one class, and nobody waits in
  -- its queue; the server accepts, the lock is free, and one of the next room keys is not in Redis.
  -- Both ask for a game, and then both confirm the match, packet by packet: this ends without a
  -- fault. Each has been told the key of one room, which was not in Redis and is now, with the
  -- value "0"; beside that Redis is as it was. Both sessions are in WAIT with closed sockets, their
  -- numbers are free, in the order of the confirmations, the count of connections has fallen by
  -- two, their names are not in the lobby, the queue of the class is empty, and no other session
  -- has changed.
  pub rank_game :
      (i j : ℕ) (request_i request_j confirm_i confirm_j : Text) (w : World S D)
      → i ≢ j
      → header_type request_i ≡ type_code play_rank_req
      → header_type request_j ≡ type_code play_rank_req
      → header_type confirm_i ≡ type_code match_confirm
      → header_type confirm_j ≡ type_code match_confirm
      → stat_of i w ≡ login
      → stat_of j w ≡ login
      → (w.sessions i).is_open ≡ true
      → (w.sessions j).is_open ≡ true
      → class_of i w ≡ class_of j w
      → w.matching_que (class_of j w) ≡ []
      → w.session_queue_locked ≡ false
      → w.accepting_flag ≡ true
      → HasFreshKey x attempts w
      → (key : Text) × (w' : World S D) × ((process_packet x attempts i request_i w
            >>= process_packet x attempts j request_j
            >>= process_packet x attempts i confirm_i
            >>= process_packet x attempts j confirm_j)
          ≡ ok w')
        × Played x i j key w w'
  rank_game i j p_i p_j c_i c_j w ne asks_i asks_j says_i says_j stat stat' opened opened' class'
        empty unlocked flag fresh =
      let (key, w₂, e₁, e₂, m, kept) =
        rank_match i j w ne stat stat' opened opened' class' empty fresh in
      let w₁ : World S D = alone i w in
      let a = alone-Alone i w in
      let (w₃, e₃, l) =
        confirm-Left x attempts i c_i w₂ says_i m.first.stat (kept.locked ∙ unlocked)
          (kept.flag ∙ flag) in
      let j_same : w₃.sessions j ≡ w₂.sessions j = l.others j (λ e. ne (sym e)) in
      let (w₄, e₄, l') =
        confirm-Left x attempts j c_j w₃ says_j
          (ap (λ (s : Session). s.stat) j_same ∙ m.second.stat) l.unlocked l.flag in
      let i_same : w₄.sessions i ≡ w₃.sessions i = l'.others i ne in
      let name_i : (w₂.sessions i).user_id ≡ (w.sessions i).user_id =
        m.first.user_id ∙ ground (arith, a.user_id i) in
      let name_j : (w₃.sessions j).user_id ≡ (w.sessions j).user_id =
        ap (λ (s : Session). s.user_id) j_same ∙ m.second.user_id ∙ ground (arith, a.user_id j) in
      let class₁ : class_of j w₁ ≡ class_of j w =
        ap (λ v. rating_code (check_rating v)) (a.rating j) in
      (
        key,
        w₄,
        rw (packet-request i p_i w asks_i ∙ e₁, packet-request j p_j w₁ asks_j ∙ e₂, e₃, e₄) refl,
        record {
          fresh = ap (λ s. x.get_redis_kv s key) (sym a.redis) ∙ m.fresh;
          registered =
              l'.redis
              ∙ l.redis
              ∙ m.registered
              ∙ ap (λ s. x.set_redis_kv s key (codes "0")) a.redis;
          room_keys = (
            ap (λ (s : Session). s.room_key) i_same ∙ l.room_key ∙ m.first.room_key,
            l'.room_key ∙ ap (λ (s : Session). s.room_key) j_same ∙ m.second.room_key,
          );
          freed =
              l'.freed
              ∙ ap (λ q. q ++ j ∷ []) (l.freed ∙ ap (λ q. q ++ i ∷ []) kept.session_queue)
              ∙ append_assoc w.session_queue (i ∷ []) (j ∷ []);
          stats = (ap (λ (s : Session). s.stat) i_same ∙ l.stat, l'.stat);
          closed = (ap (λ (s : Session). s.is_open) i_same ∙ l.is_open, l'.is_open);
          connections =
              l'.connections
              ∙ ap (λ n. n -ℤ pos 1) (l.connections ∙ ap (λ n. n -ℤ pos 1) kept.connections);
          gone_i =
              subst (λ n. find n w₄.user_id_map ≡ none) name_i
                (ap (find (w₂.sessions i).user_id) l'.users
                  ∙ find-del_id_other (w₂.sessions i).user_id (w₃.sessions j).user_id w₃ (
                      ap (find (w₂.sessions i).user_id) l.users
                      ∙ find-del_id_self (w₂.sessions i).user_id w₂));
          gone_j =
              subst (λ n. find n w₄.user_id_map ≡ none) name_j
                (ap (find (w₃.sessions j).user_id) l'.users
                  ∙ find-del_id_self (w₃.sessions j).user_id w₃);
          unqueued =
              ap (λ (q : ℕ → List ℕ). q (class_of j w))
                (l'.matching_que ∙ l.matching_que ∙ m.queues)
              ∙ ground (arith, class₁, ==_iff (class_of j w₁) (class_of j w));
          others = λ k ni nj.
              l'.others k nj
              ∙ l.others k ni
              ∙ m.others k ni nj
              ∙ ground (arith, nj, ==_iff j k, a.others k ni);
        },
      )
