-- ===== src/Config/Tests.antt =====
-- internal/config/config.go: an environment that has the two required variables, and others.
use tidy_dav.Prelude.{◌≡◌, refl, str, none, some, [], ◌∷◌, list_eq, nat_eq, ◌==◌, if◌then◌else◌}
use tidy_dav.Prelude.Int.{pos}
use tidy_dav.Prelude.Result.{ok, err}
use tidy_dav.Notify.{trim_slashes}
use tidy_dav.Config.{
  Env, Config, info, parse_log_level, no_base_url, minutes, env_hex_color, validate, read_config,
  load,
}
use tidy_dav.Config.Valid.{IsValid, load-IsValid}

abbrev env : Env
env = record {
  getenv = λ key.
      if key == str "TIDYDAV_SECRET_KEY"
      then str "k"
      else if key == str "TIDYDAV_BASE_URL"
      then str "http://a//"
      else if key == str "TIDYDAV_SYNC_TICK"
      then str "-5s"
      else if key == str "TIDYDAV_ACCENT_COLOR"
      then str "zzzzzz"
      else [];
  to_lower = λ s. s;
  trim_space = λ s. s;
  fields = λ s. s ∷ [];
  parse_bool = λ s. none;
  atoi = λ s. none;
  parse_duration = λ s. some (pos 0);
  parse_url = λ s. some (str "http", str "a");
}

abbrev config : Config
config = read_config env info

loaded : load env ≡ ok config
unfolding load parse_log_level read_config validate list_eq nat_eq
loaded = refl

-- The final slashes are cut off, and the interval is the default: that of the variable is not
-- positive.
read_values : (config.base_url ≡ str "http://a") × (config.sync_tick ≡ minutes 1)
unfolding read_config trim_slashes list_eq nat_eq
read_values = (refl, refl)

no_key :
    load (record env { getenv = λ key. if key == str "TIDYDAV_SECRET_KEY" then str "k" else [] })
    ≡ err no_base_url
unfolding load parse_log_level read_config validate list_eq nat_eq
no_key = refl

-- Only the length of a color is looked at.
no_hex : env_hex_color env (str "TIDYDAV_ACCENT_COLOR") ≡ str "#zzzzzz"
unfolding env_hex_color list_eq nat_eq
no_hex = refl

load-IsValid_example : IsValid env config
load-IsValid_example = load-IsValid env config loaded
