-- ===== src/Match/Keys.antt =====
-- Room keys: the text of a key, and the loop that draws one.
use jbjb.Base.{
  sym, ◌∙◌, ℕ, zero, suc, ◌+◌, ◌-◌, ◌*◌, ◌/◌, ◌%◌, ◌≤◌, ◌<◌, ◌≡◌, refl, ap, ap₂, subst, ◌≢◌, inl,
  inr, Option, none, some, List, [], ◌∷◌, arith, length, drop, All, ok, Option-cases,
}
use jbjb.Base.Texts.{Text, codes}
use jbjb.Match.RoomKey.{hex_digit, hex_bytes, generate_room_key, draw_room_key}
use jbjb.World.{External}
use native.Mathlib.Decide.{dec_lt}

abbrev pub IsByte : ℕ → Type 0
IsByte n = n < 256

hex_digit_inj : (a b : ℕ) → a < 16 → b < 16 → hex_digit a ≡ hex_digit b → a ≡ b
unfolding hex_digit
hex_digit_inj a b ha hb e = ground arith

hex_bytes_inj : (u v : List ℕ) → All IsByte u → All IsByte v → hex_bytes u ≡ hex_bytes v → u ≡ v
unfolding hex_bytes
hex_bytes_inj [] [] hu hv e = refl
hex_bytes_inj [] (b ∷ v) hu hv e = cc
hex_bytes_inj (a ∷ u) [] hu hv e = cc
hex_bytes_inj (a ∷ u) (b ∷ v) hu hv e =
    let high : a / 16 ≡ b / 16 = hex_digit_inj (a / 16) (b / 16) (omega arith) (omega arith) (cc) in
    let low : a % 16 ≡ b % 16 = hex_digit_inj (a % 16) (b % 16) (omega arith) (omega arith) (cc) in
    ap₂ ◌∷◌ (omega arith) (hex_bytes_inj u v hu.1 hv.1 (cc))

length-hex_bytes : (u : List ℕ) → length (hex_bytes u) ≡ 2 * length u
unfolding hex_bytes
length-hex_bytes [] = refl
length-hex_bytes (a ∷ u) = omega (arith, length-hex_bytes u)

-- Two lists of bytes with the same room key are equal.
generate_room_key_inj :
    (u v : List ℕ) → All IsByte u → All IsByte v → generate_room_key u ≡ generate_room_key v → u ≡ v
unfolding generate_room_key
generate_room_key_inj u v hu hv e = hex_bytes_inj u v hu hv (ap (drop 5) e)

-- The key of a uuid of 16 bytes and the zero behind it fit into `char room_key[40]`.
length-generate_room_key : (u : List ℕ) → length u ≡ 16 → length (generate_room_key u) + 1 ≤ 40
unfolding generate_room_key
length-generate_room_key u h = omega (arith, length-hex_bytes u)

none-ne-some {ℓ} : {A : Type ℓ} {o : Option A} {a : A} → o ≡ none → o ≡ some a → ⊥
none-ne-some e f = cc

module _ {S D : Type 0} (x : External S D) where
  -- The key of the n-th uuid.
  abbrev pub key_at : ℕ → Text
  key_at n = generate_room_key (x.random_uuid n)

  -- If one of the next keys is not in Redis, the draw ends with the first such key.
  pub draw_room_key_first :
      (attempts : ℕ) (redis : S) (drawn n : ℕ)
      → n < attempts
      → x.get_redis_kv redis (key_at (drawn + n)) ≡ none
      → (k : ℕ) × (k ≤ n)
        × (draw_room_key x attempts redis drawn ≡ ok (key_at (drawn + k), drawn + k + 1))
        × (x.get_redis_kv redis (key_at (drawn + k)) ≡ none)
        × ((j : ℕ) → j < k → x.get_redis_kv redis (key_at (drawn + j)) ≢ none)
  unfolding draw_room_key
  draw_room_key_first zero redis drawn n h e = absurd (omega arith)
  draw_room_key_first (suc attempts) redis drawn n h e =
      elim (Option-cases (x.get_redis_kv redis (key_at drawn))) [
        | inl here ↦
            let at : drawn ≡ drawn + 0 = omega arith in
            (
              0,
              omega arith,
              rw (here, draw_room_key, ← at) refl,
              rw (← at) here,
              λ j below. absurd (omega arith),
            )
        | inr (v, taken) ↦
            let later : 0 < n = positive v taken in
            let at : drawn + n ≡ drawn + 1 + (n - 1) = omega arith in
            let (k, le, draws, fresh, before) =
              draw_room_key_first attempts redis (drawn + 1) (n - 1) (omega arith)
                (subst (λ m. x.get_redis_kv redis (key_at m) ≡ none) at e) in
            let next : drawn + 1 + k ≡ drawn + (k + 1) = omega arith in
            (
              k + 1,
              omega arith,
              rw (taken, draw_room_key, draws, next) refl,
              subst (λ m. x.get_redis_kv redis (key_at m) ≡ none) next fresh,
              earlier k v taken before,
            )
      ]
    where
      positive : (v : Text) → x.get_redis_kv redis (key_at drawn) ≡ some v → 0 < n
      positive v taken = elim (dec_lt 0 n) [
        | yes p ↦ p
        | no z ↦
            let at : drawn + n ≡ drawn = omega arith in
            absurd (none-ne-some (subst (λ m. x.get_redis_kv redis (key_at m) ≡ none) at e) taken)
      ]

      earlier :
          (k : ℕ) (v : Text)
          → x.get_redis_kv redis (key_at drawn) ≡ some v
          → ((j : ℕ) → j < k → x.get_redis_kv redis (key_at (drawn + 1 + j)) ≢ none)
          → (j : ℕ) → j < k + 1
          → x.get_redis_kv redis (key_at (drawn + j)) ≢ none
      earlier k v taken before j below free = elim (dec_lt 0 j) [
        | yes p ↦
            let at : drawn + j ≡ drawn + 1 + (j - 1) = omega arith in
            before (j - 1) (omega arith)
              (subst (λ m. x.get_redis_kv redis (key_at m) ≡ none) at free)
        | no z ↦
            let at : drawn + j ≡ drawn = omega arith in
            none-ne-some (subst (λ m. x.get_redis_kv redis (key_at m) ≡ none) at free) taken
      ]

  -- The next `n` keys are not in Redis, and differ.
  pub record NewKeys (n : ℕ) (redis : S) (drawn : ℕ) : Type 0 where
    pub absent : (k : ℕ) → k < n → x.get_redis_kv redis (key_at (drawn + k)) ≡ none
    pub differ : (j k : ℕ) → j < k → k < n → key_at (drawn + j) ≢ key_at (drawn + k)

  pub NewKeys-next :
      (n : ℕ) (redis : S) (drawn : ℕ)
      → ((s : S) (key other value : Text)
          → key ≢ other
          → x.get_redis_kv (x.set_redis_kv s key value) other ≡ x.get_redis_kv s other)
      → NewKeys (n + 1) redis drawn
      → NewKeys n (x.set_redis_kv redis (key_at drawn) (codes "0")) (drawn + 1)
  NewKeys-next n redis drawn keeps h =
      let at : (k : ℕ) → drawn + 1 + k ≡ drawn + (k + 1) = λ k. omega arith in
      let now : drawn ≡ drawn + 0 = omega arith in
      record {
        absent = λ k below.
            keeps redis (key_at drawn) (key_at (drawn + 1 + k)) (codes "0") (λ e.
              h.differ 0 (k + 1) (omega arith) (omega arith)
                (ap key_at (sym now) ∙ e ∙ ap key_at (at k)))
            ∙ ap (λ m. x.get_redis_kv redis (key_at m)) (at k)
            ∙ h.absent (k + 1) (omega arith);
        differ = λ j k below le e.
            h.differ (j + 1) (k + 1) (omega arith) (omega arith)
              (sym (ap key_at (at j)) ∙ e ∙ ap key_at (at k));
      }

  -- The next key, if it is not in Redis.
  pub draw_room_key-next :
      (attempts drawn : ℕ) (redis : S)
      → 0 < attempts
      → x.get_redis_kv redis (key_at drawn) ≡ none
      → draw_room_key x attempts redis drawn ≡ ok (key_at drawn, drawn + 1)
  unfolding draw_room_key
  draw_room_key-next zero drawn redis some_left fresh = absurd (omega arith)
  draw_room_key-next (suc attempts) drawn redis some_left fresh = rw (fresh, draw_room_key) refl
