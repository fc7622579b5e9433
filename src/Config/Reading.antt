-- ===== src/Config/Reading.antt =====
-- What `get_value` reads when config.json can be read, and when it cannot.
use jbjb.Base.{
  Bool, true, false, none, some, Option, ◌≡◌, refl, Result, ok, uncaught_exception, ◌>>=◌, Ends,
  >>=_assoc, >>=-Ends, Ends-self,
}
use jbjb.Base.Results.{Fault}
use jbjb.Base.Texts.{Text}
use jbjb.Config.{JsonSpirit, or_fault, init, look_up, get_value}

module _ {V O : Type 0} (j : JsonSpirit V O) where
  -- json_ can be used, and is `v` from the first call on.
  pub record Ready (json v : V) : Type 0 where
    pub ready : init j json ≡ (true, v)
    pub here : j.is_null v ≡ false

  pub Ready-after : {json v : V} → Ready json v → Ready v v
  unfolding init
  Ready-after r = record { ready = rw r.here refl; here = r.here }

  -- There is no configuration: json_ is null, and config.json cannot be read.
  pub record Unread (json : V) : Type 0 where
    pub null : j.is_null json ≡ true
    pub no_file : j.config_file ≡ none

  module _ {A : Type 0} (get : V → Option A) (config_type key : Text) where
    -- The value `a` stands under the key.
    pub record Entry (v : V) (a : A) : Type 0 where
      pub found : V
      pub at : look_up j config_type key v ≡ ok found
      pub value : get found ≡ some a

    pub get_value-Entry :
        (old : A) {json v : V} {a : A}
        → Ready json v
        → Entry v a
        → get_value j get config_type key old json ≡ ok (v, true, a)
    unfolding get_value
    get_value-Entry old r e = rw (r.ready, e.at, e.value) refl

    or_fault-Ends :
        {B : Type 0} (why : Fault) (o : Option B) → Ends (λ b. o ≡ some b) (or_fault why o)
    or_fault-Ends why none = tt
    or_fault-Ends why (some b) = refl

    -- What follows a call of `get_value` that comes to its end goes on with the entry.
    pub get_value-Ends :
        {B : Type 0} (Q : B → Type 0) (next : V × Bool × A → Result B) (old : A) {json v : V}
        → Ready json v
        → ((a : A) → Entry v a → Ends Q (next (v, true, a)))
        → Ends Q (get_value j get config_type key old json >>= next)
    unfolding get_value
    get_value-Ends Q next old {json} {v} r rest =
        rw
          (
            r.ready,
            >>=_assoc (look_up j config_type key v)
                (λ found. or_fault uncaught_exception (get found) >>= λ a. ok (v, true, a)) next,
          )
          (>>=-Ends (λ found. look_up j config_type key v ≡ ok found) Q
            (look_up j config_type key v) _ (Ends-self _)
            (λ found at.
              rw (>>=_assoc (or_fault uncaught_exception (get found)) (λ a. ok (v, true, a)) next) (
                >>=-Ends (λ a. get found ≡ some a) Q (or_fault uncaught_exception (get found)) _
                  (or_fault-Ends uncaught_exception (get found))
                  (λ a value. rest a (record { found = found; at = at; value = value })))))

    pub get_value-Unread :
        (old : A) {json : V}
        → Unread json
        → get_value j get config_type key old json ≡ ok (json, false, old)
    unfolding get_value init
    get_value-Unread old u = rw (u.null, u.no_file) refl
