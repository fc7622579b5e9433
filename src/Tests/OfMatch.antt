-- ===== src/Tests/OfMatch.antt =====
-- Tests of match_manager.
use jbjb.Base.{
  ℕ, ◌≡◌, refl, ◌↔◌, Bool, none, List, [], ◌∷◌, ok, fault, null_dereference, ◌>>=◌, arith,
}
use jbjb.Base.Texts.{Text, codes, find, text_eq}
use jbjb.Match.Games.{AreInLobby, accept_stranger}
use jbjb.Match.Handshake.{Relayed, relay-Relayed, relay_null}
use jbjb.Match.Pairing.{HasFreshKey}
use jbjb.Match.Queueing.{Sound, NoneForgotten, get_matching_que-Sound}
use jbjb.Match.RoomKey.{generate_room_key, hex_digit, hex_bytes}
use jbjb.Match.{relay, get_matching_que}
use jbjb.Protocol.Messages.{apply, accept, deny}
use jbjb.Protocol.Status.{match_request, match_complete, match_apply, match_recver}
use jbjb.Session.{set_status}
use jbjb.Tests.{outside, lobby, nothing_found}
use jbjb.World.Access.{with_session, set_que}
use jbjb.World.{External, World}

program : Unit {0}
unfolding find text_eq generate_room_key hex_digit hex_bytes
program = tt

abbrev x : External (List (Text × Text)) ℕ
x = outside nothing_found

-- The first key that is drawn is free.
fresh : HasFreshKey x 1 lobby
unfolding program
fresh = (0, omega arith, refl)

-- Sessions 1 and 2 wait in the queue with the number 2.
abbrev waiting : World (List (Text × Text)) ℕ
waiting =
    set_que 2 (1 ∷ 2 ∷ [])
      (with_session 1 (set_status match_request) (with_session 2 (set_status match_request) lobby))

waiting_fresh : HasFreshKey x 1 waiting
unfolding program
waiting_fresh = (0, omega arith, refl)

get_matching_que-Sound_example :
    (w' : World (List (Text × Text)) ℕ) × (matched : Bool) × (get_matching_que x 1 2 waiting
      ≡ ok (w', matched))
    × Sound x 2 waiting w' matched
    × NoneForgotten x 2 waiting w'
get_matching_que-Sound_example = get_matching_que-Sound x 1 2 waiting waiting_fresh

relay-Relayed_example :
    (w' : World (List (Text × Text)) ℕ) × (relay x 1 apply 1 (codes "bob") lobby ≡ ok w')
    × Relayed x apply 1 2 lobby w'
unfolding program
relay-Relayed_example = relay-Relayed x 1 apply 1 2 (codes "bob") lobby (omega arith) refl fresh

relay_null_example :
    (relay x 1 deny 1 (codes "eve") lobby ≡ fault null_dereference)
    ↔ ((deny ≡ deny) × (find (codes "eve") lobby.user_id_map ≡ none))
relay_null_example = relay_null x 1 deny 1 (codes "eve") lobby fresh

ann_bob : AreInLobby x 1 1 2 (codes "ann") (codes "bob") lobby
unfolding program
ann_bob = record {
  differ = omega arith;
  named_i = refl;
  named_j = refl;
  stat_i = refl;
  stat_j = refl;
}

cat_dan : AreInLobby x 1 3 4 (codes "cat") (codes "dan") lobby
unfolding program
cat_dan = record {
  differ = omega arith;
  named_i = refl;
  named_j = refl;
  stat_i = refl;
  stat_j = refl;
}

accept_stranger_example :
    (w' : World (List (Text × Text)) ℕ) × ((relay x 1 apply 1 (codes "bob") lobby >>= λ w₁.
    relay x 1 apply 3 (codes "dan") w₁ >>= relay x 1 accept 2 (codes "cat"))
      ≡ ok w')
    × ((w'.sessions 2).stat ≡ match_complete)
    × ((w'.sessions 3).stat ≡ match_complete)
    × ((w'.sessions 1).stat ≡ match_apply)
    × ((w'.sessions 4).stat ≡ match_recver)
accept_stranger_example =
    accept_stranger x 1 1 2 3 4 (codes "ann") (codes "bob") (codes "cat") (codes "dan") lobby
      ann_bob cat_dan (omega arith) (omega arith) (omega arith) (omega arith) fresh
