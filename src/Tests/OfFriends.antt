-- ===== src/Tests/OfFriends.antt =====
-- Tests of friends_manager.
use jbjb.Base.{ℕ, ◌≡◌, refl, Bool, true, some, List, ok, subst, arith}
use jbjb.Base.Texts.{Text, codes, find, text_eq}
use jbjb.Db.Connections.{PoolInv}
use jbjb.Db.Query.{c_str}
use jbjb.Friends.Leaving.{LoggedOut, lobby_logout_process-LoggedOut}
use jbjb.Friends.Lists.{Answered, friends_function-Answered}
use jbjb.Friends.Lobby.{Outcome, NameFits, lobby_login_process-Outcome}
use jbjb.Friends.{friends_function, lobby_login_process, lobby_logout_process}
use jbjb.Protocol.Messages.{add}
use jbjb.Tests.{outside, lobby, user_found, nothing_found}
use jbjb.World.{World}

program : Unit {0}
unfolding find text_eq c_str
program = tt

lobby-PoolInv : PoolInv lobby
lobby-PoolInv = record { free = omega arith; indices = (omega arith, (omega arith, tt)) }

-- The user of the token "t1" is "eve".
fits : (id : Text) → find (codes "t1") lobby.redis ≡ some id → NameFits id
unfolding program
fits id e = subst NameFits same (omega arith, omega arith)
  where
    same : codes "eve" ≡ id
    same = cc

lobby_login_process-Outcome_example :
    (w' : World (List (Text × Text)) ℕ) × (joined : Bool) × (lobby_login_process
        (outside user_found)
        0
        (codes "t1")
        lobby
      ≡ ok (w', joined))
    × Outcome (outside user_found) 0 (codes "t1") lobby w' joined
lobby_login_process-Outcome_example =
    lobby_login_process-Outcome (outside user_found) 0 (codes "t1") lobby lobby-PoolInv fits

friends_function-Answered_example :
    (w' : World (List (Text × Text)) ℕ) × (friends_function
        (outside nothing_found)
        add
        1
        (codes "bob")
        lobby
      ≡ ok w')
    × Answered (outside nothing_found) 1 lobby w'
unfolding program
friends_function-Answered_example =
    friends_function-Answered (outside nothing_found) add 1 (codes "bob") lobby lobby-PoolInv
      (omega arith, omega arith)

lobby_logout_process-LoggedOut_example :
    (w' : World (List (Text × Text)) ℕ) × (lobby_logout_process (outside nothing_found) 1 lobby
      ≡ (w', true))
    × LoggedOut (outside nothing_found) 1 lobby w'
unfolding program
lobby_logout_process-LoggedOut_example =
    lobby_logout_process-LoggedOut (outside nothing_found) 1 lobby (codes "eve") refl
