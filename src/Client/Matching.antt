-- ===== src/Client/Matching.antt =====
-- The classes of ratings in the test client's protocol.h, beside those of the server.
use jbjb.Base.{◌≤◌, arith, if◌then◌else◌}
use jbjb.Base.Int.{ℤ, pos, ltb_ℤ}
use jbjb.Match.Rating.{
  Rating, bronze, silver, gold, platinum, diamond, master, challenger, rating_code,
}
use jbjb.Match.Rating.{check_rating as server_rating}

unfoldable pub check_rating : ℤ → Rating
check_rating rating =
    if ltb_ℤ rating (pos 100)
    then bronze
    else if ltb_ℤ rating (pos 200)
    then silver
    else if ltb_ℤ rating (pos 300)
    then gold
    else if ltb_ℤ rating (pos 400)
    then platinum
    else if ltb_ℤ rating (pos 500)
    then diamond
    else if ltb_ℤ rating (pos 800)
    then master
    else challenger

-- The client names no lower class than the one in which the server queues the player.
pub check_rating-server_rating :
    (rating : ℤ) → rating_code (server_rating rating) ≤ rating_code (check_rating rating)
unfolding check_rating server_rating
check_rating-server_rating rating = ground arith
