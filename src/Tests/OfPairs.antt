-- ===== src/Tests/OfPairs.antt =====
-- A test of five requests for a game.
use jbjb.Base.{ℕ, ◌+◌, ◌≡◌, refl, ◌≢◌, List, [], ◌∷◌, ok, arith, ap, ◌∙◌}
use jbjb.Base.Texts.{Text, find, find-assign, text_eq, text_eq_iff}
use jbjb.Match.Keys.{key_at, NewKeys}
use jbjb.Match.Pairs.{AreReady, ArePaired, requests, requests-ArePaired}
use jbjb.Match.Queueing.{In}
use jbjb.Match.Requests.{class_of}
use jbjb.Match.RoomKey.{generate_room_key, hex_digit, hex_bytes}
use jbjb.Tests.{outside, lobby, nothing_found}
use mathlib.Core.Bool.{false≢true}
use jbjb.World.{External, World}

abbrev x : External (List (Text × Text)) ℕ
x = outside nothing_found

abbrev players : List ℕ
players = 1 ∷ 2 ∷ 3 ∷ 4 ∷ 5 ∷ []

program : Unit {0}
unfolding find text_eq generate_room_key hex_digit hex_bytes
program = tt

ready : AreReady (class_of 1 lobby) players lobby
ready = (
  refl,
  refl,
  ground arith,
  (
    refl,
    refl,
    ground arith,
    (refl, refl, ground arith, (refl, refl, ground arith, (refl, refl, ground arith, tt))),
  ),
)

first_differ : key_at x 0 ≢ key_at x 1
unfolding program
first_differ e = false≢true ((text_eq_iff (key_at x 0) (key_at x 1)).1 e)

new : NewKeys x 2 lobby.redis lobby.drawn
unfolding program
new = record {
  absent = λ k below. refl;
  differ = λ j k before below e.
      let now : 0 ≡ lobby.drawn + j = omega arith in
      let next : lobby.drawn + k ≡ 1 = omega arith in
      first_differ (ap (key_at x) now ∙ e ∙ ap (key_at x) next);
}

keeps :
    (s : List (Text × Text)) (key other value : Text)
    → key ≢ other
    → x.get_redis_kv (x.set_redis_kv s key value) other ≡ x.get_redis_kv s other
keeps s key other value ne =
    ground (arith, find-assign key other value s, text_eq_iff key other, ne)

requests-ArePaired_example :
    (w' : World (List (Text × Text)) ℕ) × (requests x 1 players lobby ≡ ok w')
    × ArePaired x players 0 w'
    × (w'.matching_que (class_of 1 lobby) ≡ 5 ∷ [])
    × ((k : ℕ) → (In k players → ⊥) → w'.sessions k ≡ lobby.sessions k)
requests-ArePaired_example =
    requests-ArePaired x 1 (class_of 1 lobby) players lobby (omega arith) ready refl new keeps
