-- ===== src/Config.antt =====
-- smilegate/project/GameChannelServer/config.h and config.cpp: the values of config.json.
pub mod Reading
use jbjb.Base.{
  Bool, true, false, Option, none, some, ◌≡◌, Result, ok, fault, out_of_range, uncaught_exception,
  end_dereference, Fault, ◌>>=◌, if◌then◌else◌,
}
use jbjb.Base.Int.{ℤ}
use jbjb.Base.Texts.{Text}

-- json_spirit, which is not in the repository, over its values `V` and objects `O`: `none` is an
-- exception of `get_obj`, `at`, `get_int` and `get_str`, and `end()` for `find`. `config_file` is
-- what `read` makes of config.json, `none` when it returns false.
pub record JsonSpirit (V O : Type 0) : Type 0 where
  pub is_null : V → Bool
  pub get_obj : V → Option O
  pub at : O → Text → Option V
  pub find : O → Text → Option V
  pub get_int : V → Option ℤ
  pub get_str : V → Option Text
  pub config_file : Option V

-- A value, or else a fault.
abbrev pub or_fault {ℓ} : {A : Type ℓ} → Fault → Option A → Result A
or_fault why none = fault why
or_fault why (some value) = ok value

module _ {V O : Type 0} (j : JsonSpirit V O) where
  -- `init`: whether json_ can be used, and json_ after it.
  unfoldable pub init : V → Bool × V
  init json =
      if j.is_null json
      then (elim j.config_file [ none ↦ (false, json) | some read ↦ (true, read) ])
      else (true, json)

  -- `json_.get_obj().at(config_type)`, and `find(key)->second` in it. The iterator is not compared
  -- with `end()`.
  unfoldable pub look_up : Text → Text → V → Result V
  look_up config_type key json = or_fault uncaught_exception (j.get_obj json) >>= λ json_object.
      or_fault out_of_range (j.at json_object config_type) >>= λ mvalue.
      or_fault uncaught_exception (j.get_obj mvalue) >>= λ object.
      or_fault end_dereference (j.find object key)

  -- The two overloads of `get_value`, for a way to take a value from json_spirit: json_ and the
  -- variable after the call. What `get_value` returns is never looked at, but by log_manager.
  pub get_value {ℓ} : {A : Type ℓ} → (V → Option A) → Text → Text → A → V → Result (V × Bool × A)
  get_value get config_type key value json =
      let (ready, json') = init json in
      if ready
      then (look_up config_type key json' >>= λ found.
          or_fault uncaught_exception (get found) >>= λ value'. ok (json', true, value'))
      else ok (json', false, value)
