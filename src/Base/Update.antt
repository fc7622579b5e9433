-- ===== src/Base/Update.antt =====
-- Tables indexed by a session number, as functions, and updates at one index.
use Prim.Native.Nat.{ℕ}
use jbjb.Base.Tests.{◌==◌, if◌then◌else◌}

abbrev pub update {ℓ} : {A : Type ℓ} → (ℕ → A) → ℕ → A → ℕ → A
update f i a j = if i == j then a else f j
