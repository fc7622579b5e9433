-- ===== src/Server/Closing/Statuses.antt =====
-- The branches of `close_session`.
use jbjb.Base.{◌≡◌, refl, Bool, true, false, none, some, arith}
use jbjb.Base.Int.{pos, ◌+ℤ◌}
use jbjb.Base.Texts.{Text, find, find-erase, text_eq_iff}
use jbjb.Db.Pool.{KeptPool}
use jbjb.Friends.{del_redis_token, del_id_in_user_map}
use jbjb.Protocol.Status.{
  Status, wait, conn, login, logout, match_request, match_apply, match_recver, match_complete,
  match_confirm,
}
use jbjb.Server.{forget, close_status}
use jbjb.World.{Session, External, World}

-- The statuses in which `close_session` closes.
abbrev pub is_closable : Status → Bool
is_closable wait = false
is_closable match_apply = false
is_closable _ = true

-- Those of them in which `close_session` takes the name of the session out of the lobby.
abbrev pub takes_name : Status → Bool
takes_name conn = false
takes_name logout = false
takes_name s = is_closable s

module _ {S D : Type 0} where
  -- The fields that hand out the numbers of the sessions.
  pub record SameSlots (w w' : World S D) : Type 0 where
    pub session_queue : w'.session_queue ≡ w.session_queue
    pub locked : w'.session_queue_locked ≡ w.session_queue_locked
    pub flag : w'.accepting_flag ≡ w.accepting_flag
    pub accepting : w'.accepting ≡ w.accepting
    pub connections : w'.connections ≡ w.connections
    pub sessions : w'.sessions ≡ w.sessions
    pub matching_que : w'.matching_que ≡ w.matching_que
    pub pool : KeptPool w w'

  find-del_id : (id : Text) (w : World S D) → find id (del_id_in_user_map id w).0.user_id_map ≡ none
  unfolding del_id_in_user_map
  find-del_id id w = ground (arith, find-erase id id w.user_id_map, text_eq_iff id id)

  pub del_id-SameSlots : (id : Text) (w : World S D) → SameSlots w (del_id_in_user_map id w).0
  unfolding del_id_in_user_map
  del_id-SameSlots id w = ground arith

module _ {S D : Type 0} (x : External S D) where
  -- What the branches of `close_session` have in common.
  pub record Left (stat : Status) (s : Session) (w : World S D) : Type 0 where
    pub next : World S D
    pub equation : close_status x stat s w ≡ some next
    pub slots : SameSlots w next
    pub gone : takes_name stat ≡ true → find s.user_id next.user_id_map ≡ none
    pub stays : takes_name stat ≡ false → next.user_id_map ≡ w.user_id_map

  forget-SameSlots : (s : Session) (w : World S D) → SameSlots w (forget x s w)
  unfolding forget del_redis_token
  forget-SameSlots s w = ground (arith, del_id-SameSlots s.user_id (del_redis_token x s.token w).0)

  find-forget : (s : Session) (w : World S D) → find s.user_id (forget x s w).user_id_map ≡ none
  unfolding forget
  find-forget s w = find-del_id s.user_id (del_redis_token x s.token w).0

  pub close_status-Left :
      (stat : Status) (s : Session) (w : World S D) → is_closable stat ≡ true → Left stat s w
  unfolding close_status del_redis_token
  close_status-Left login s w h = record {
    next = _;
    equation = refl;
    slots = forget-SameSlots s w;
    gone = λ _. find-forget s w;
    stays = λ e. cc;
  }
  close_status-Left match_recver s w h = record {
    next = _;
    equation = refl;
    slots = forget-SameSlots s w;
    gone = λ _. find-forget s w;
    stays = λ e. cc;
  }
  close_status-Left match_request s w h = record {
    next = _;
    equation = refl;
    slots = forget-SameSlots s w;
    gone = λ _. find-forget s w;
    stays = λ e. cc;
  }
  close_status-Left logout s w h = record {
    next = w;
    equation = refl;
    slots = ground arith;
    gone = λ e. cc;
    stays = λ e. refl;
  }
  close_status-Left conn s w h = record {
    next = w;
    equation = refl;
    slots = ground arith;
    gone = λ e. cc;
    stays = λ e. refl;
  }
  close_status-Left match_confirm s w h = record {
    next = _;
    equation = refl;
    slots = del_id-SameSlots s.user_id w;
    gone = λ _. find-del_id s.user_id w;
    stays = λ e. cc;
  }
  close_status-Left match_complete s w h =
      let w₁ : World S D = (del_redis_token x s.room_key w).0 in
      let w₂ : World S D = record w₁ { room_key_del = w₁.room_key_del +ℤ pos 1 } in
      let kept : SameSlots w₂ (forget x s w₂) = forget-SameSlots s w₂ in
      record {
        next = forget x s w₂;
        equation = refl;
        slots = ground (arith, kept);
        gone = λ _. find-forget s w₂;
        stays = λ e. cc;
      }
  close_status-Left wait s w h = cc
  close_status-Left match_apply s w h = cc
