-- ===== src/Match/Rating.antt =====
-- The rating classes of match_manager.cpp (`check_rating`) and their queues.
use jbjb.Base.{ℕ, if◌then◌else◌}
use jbjb.Base.Int.{ℤ, pos, ltb_ℤ}

-- `enum rating` of channel_protobuf.pb.h.
pub data Rating : Type 0 where
  bronze silver gold platinum diamond master challenger : Rating

abbrev pub rating_code : Rating → ℕ
rating_code bronze = 0
rating_code silver = 1
rating_code gold = 2
rating_code platinum = 3
rating_code diamond = 4
rating_code master = 5
rating_code challenger = 6

unfoldable pub check_rating : ℤ → Rating
check_rating rating =
    if ltb_ℤ rating (pos 300)
    then bronze
    else if ltb_ℤ rating (pos 400)
    then silver
    else if ltb_ℤ rating (pos 500)
    then gold
    else if ltb_ℤ rating (pos 600)
    then platinum
    else if ltb_ℤ rating (pos 700)
    then diamond
    else if ltb_ℤ rating (pos 900)
    then master
    else challenger

-- The size of `matching_que`, and the index in it of the queue that all classes share.
abbrev pub max_rating : ℕ
max_rating = 8

abbrev pub shared_que : ℕ
shared_que = 7
