-- ===== src/Protocol/Status.antt =====
-- `enum session_status` of protocol.h, with the numbers that the compiler gives its names.
use jbjb.Base.{ℕ, ◌≡◌, Bool, true, arith, ◌==◌, ◌↔◌}

pub data Status : Type 0 where
  wait conn login logout match_request match_apply match_recver match_complete match_confirm :
      Status

abbrev pub status_code : Status → ℕ
status_code wait = 0
status_code conn = 1
status_code login = 2
status_code logout = 3
status_code match_request = 4
status_code match_apply = 5
status_code match_recver = 6
status_code match_complete = 7
status_code match_confirm = 8

-- `==` on statuses.
abbrev pub is_status : Status → Status → Bool
is_status s t = status_code s == status_code t

pub is_status_iff : (s t : Status) → (is_status s t ≡ true) ↔ (s ≡ t)
is_status_iff s t = ground arith
