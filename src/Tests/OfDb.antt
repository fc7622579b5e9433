-- ===== src/Tests/OfDb.antt =====
-- Tests of db_connector.
use jbjb.Base.{◌≡◌, ◌≢◌, ◌↔◌, ok, fault, out_of_range, true, false, [], ◌∷◌, arith}
use jbjb.Db.Connections.{PoolInv}
use jbjb.Db.Query.{c_str}
use jbjb.Db.Slots.{count_made, close_pool-made}
use jbjb.Db
use jbjb.Tests.{lobby}

program : Unit {0}
unfolding Db.init c_str
program = tt

lobby-PoolInv : PoolInv lobby
lobby-PoolInv = record { free = omega arith; indices = (omega arith, (omega arith, tt)) }

close_pool-made_example :
    ((Db.close_pool 2 (Db.init 0 (true ∷ false ∷ [])).0 ≡ ok (Db.init 0 (true ∷ false ∷ [])).0)
      ↔ (count_made (true ∷ false ∷ []) ≡ 2))
    × (count_made (true ∷ false ∷ []) ≢ 2
        → Db.close_pool 2 (Db.init 0 (true ∷ false ∷ [])).0 ≡ fault out_of_range)
close_pool-made_example = close_pool-made (true ∷ false ∷ [])
