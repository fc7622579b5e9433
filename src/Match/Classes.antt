-- ===== src/Match/Classes.antt =====
-- `check_rating` against the list of the ratings at which a class begins.
use jbjb.Base.{ℕ, ◌+◌, ◌<◌, ◌≤◌, ◌≡◌, List, [], ◌∷◌, arith, if◌then◌else◌}
use jbjb.Base.Int.{ℤ, pos, ltb_ℤ, ◌≤ℤ◌}
use jbjb.Match.Rating.{rating_code, check_rating, shared_que}

abbrev class_starts : List ℤ
class_starts = pos 300 ∷ pos 400 ∷ pos 500 ∷ pos 600 ∷ pos 700 ∷ pos 900 ∷ []

-- How many of the starts a rating has reached.
abbrev pub reached : ℤ → List ℤ → ℕ
reached rating [] = 0
reached rating (start ∷ starts) = (if ltb_ℤ rating start then 0 else 1) + reached rating starts

-- The class of a rating is the number of class starts that it has reached.
check_rating-reached :
    (rating : ℤ) → rating_code (check_rating rating) ≡ reached rating class_starts
unfolding check_rating
check_rating-reached rating = ground arith

check_rating_mono : (a b : ℤ) → a ≤ℤ b → rating_code (check_rating a) ≤ rating_code (check_rating b)
unfolding check_rating
check_rating_mono a b h = ground arith

check_rating-lt : (a : ℤ) → rating_code (check_rating a) < shared_que
unfolding check_rating
check_rating-lt a = ground arith
