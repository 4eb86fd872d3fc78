-- ===== src/Config/Environment.antt =====
-- Reading the environment again changes nothing.
use spotalis.Common.{◌≡◌, refl, String, arith}
use spotalis.Common.Text.{Text}
use spotalis.Annotations.DisruptionWindow.{CronLibrary}
use spotalis.Config.{SpotalisConfig}
use spotalis.Config.Loader.{
  Loader, parse_bool, parse_int, text_from, bool_from, int_from, duration_from, operator_from_env,
  controllers_from_env, webhook_from_env, observability_from_env, load_from_env,
}

module _ (getenv : String → Text) (cron : CronLibrary) (l : Loader) where
  abbrev IsIdempotent : {A : Type 0} → (A → A) → Type 0
  IsIdempotent {A} f = (x : A) → f (f x) ≡ f x

  text_from-IsIdempotent : (key : String) → IsIdempotent (text_from getenv cron l key)
  unfolding text_from
  text_from-IsIdempotent key x = ground arith

  bool_from-IsIdempotent : (key : String) → IsIdempotent (bool_from getenv cron l key)
  unfolding bool_from parse_bool
  bool_from-IsIdempotent key x = ground arith

  int_from-IsIdempotent : (key : String) → IsIdempotent (int_from getenv cron l key)
  unfolding int_from parse_int
  int_from-IsIdempotent key x = ground arith

  duration_from-IsIdempotent : (key : String) → IsIdempotent (duration_from getenv cron l key)
  unfolding duration_from
  duration_from-IsIdempotent key x = ground arith

  operator_from_env-IsIdempotent : IsIdempotent (operator_from_env getenv cron l)
  unfolding operator_from_env
  operator_from_env-IsIdempotent x =
      simp (bool_from-IsIdempotent, text_from-IsIdempotent, duration_from-IsIdempotent) refl

  controllers_from_env-IsIdempotent : IsIdempotent (controllers_from_env getenv cron l)
  unfolding controllers_from_env
  controllers_from_env-IsIdempotent x =
      simp (int_from-IsIdempotent, duration_from-IsIdempotent) refl

  webhook_from_env-IsIdempotent : IsIdempotent (webhook_from_env getenv cron l)
  unfolding webhook_from_env
  webhook_from_env-IsIdempotent x =
      simp (bool_from-IsIdempotent, int_from-IsIdempotent, text_from-IsIdempotent) refl

  observability_from_env-IsIdempotent : IsIdempotent (observability_from_env getenv cron l)
  unfolding observability_from_env
  observability_from_env-IsIdempotent x = simp (bool_from-IsIdempotent, text_from-IsIdempotent) refl

  -- loadFromEnv applied again to what it leaves changes nothing.
  pub load_from_env_idempotent :
      (c : SpotalisConfig)
      → load_from_env getenv cron l (load_from_env getenv cron l c) ≡ load_from_env getenv cron l c
  unfolding load_from_env
  load_from_env_idempotent c =
      simp
        (
          operator_from_env-IsIdempotent, controllers_from_env-IsIdempotent,
          webhook_from_env-IsIdempotent, observability_from_env-IsIdempotent,
        )
        refl
