-- ===== src/Match/RoomKey.antt =====
-- `generate_room_key` of match_manager.h, and the loop of `make_matching_and_send_complete` that
-- draws a key until Redis does not hold it.
use jbjb.Base.{
  ℕ, zero, suc, ◌+◌, ◌/◌, ◌%◌, none, some, List, [], ◌∷◌, ◌++◌, ltb, if◌then◌else◌, Result, ok,
  fault, endless,
}
use jbjb.Base.Texts.{Text, codes}
use jbjb.World.{External}

-- A digit of `%02x`.
unfoldable pub hex_digit : ℕ → ℕ
hex_digit n = if ltb n 10 then n + b'0' else n + 87

unfoldable pub hex_bytes : List ℕ → Text
hex_bytes [] = []
hex_bytes (t ∷ rest) = hex_digit (t / 16) ∷ hex_digit (t % 16) ∷ hex_bytes rest

unfoldable pub generate_room_key : List ℕ → Text
generate_room_key random_uuid = codes "Room:" ++ hex_bytes random_uuid

-- `drawn` counts the uuids that have been drawn. `endless` means that the fuel ran out.
unfoldable pub draw_room_key : {S D : Type 0} → External S D → ℕ → S → ℕ → Result (Text × ℕ)
draw_room_key x zero redis drawn = fault endless
draw_room_key x (suc attempts) redis drawn =
    let redis_room_key = generate_room_key (x.random_uuid drawn) in
    let again = draw_room_key x attempts redis (drawn + 1) in
    elim (x.get_redis_kv redis redis_room_key) [
      | none ↦ ok (redis_room_key, drawn + 1)
      | some _ ↦ again
    ]
