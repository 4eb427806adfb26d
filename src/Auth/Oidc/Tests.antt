-- ===== src/Auth/Oidc/Tests.antt =====
-- internal/auth/oidc.go: a login of a user who has lost the group of the administrators.
use tidy_dav.Prelude.{◌≡◌, refl, Str, str, true, false, none, some, [], ◌∷◌, list_eq, nat_eq, ◌==◌}
use tidy_dav.Prelude.Dict
use tidy_dav.Prelude.Result.{ok, err}
use tidy_dav.Config.{OidcConfig}
use tidy_dav.Store.Users.{User, first, user_by, user_by_oidc_subject}
use tidy_dav.Auth.{Env, World, private}
use tidy_dav.Auth.Oidc.{
  Token, Provider, text, items, has_group_overlap, groups_check, groups_configured, groups_in,
  text_of, group_not_allowed, oidc_exchange,
}
use tidy_dav.Auth.Oidc.Groups.{IsLogin, oidc_exchange-IsLogin}

abbrev env : Env
env = record {
  cfg = record {
    oidc_only = true;
    allow_registration = false;
    access_mode = private;
    base_url = str "http://d";
  };
  db = λ k. none;
  token = λ k. ok (str "t");
  uuid = λ k. ok (str "id");
  hash_password = λ p. ok p;
  check_password = λ h p. h == p;
  sha256 = λ s. [];
  to_lower = λ s. s;
  trim_space = λ s. s;
  mail = λ to link. none;
}

abbrev cfg : OidcConfig
cfg = record {
  issuer_url = str "http://i";
  client_id = str "c";
  client_secret = [];
  scopes = [];
  display_name = [];
  admin_groups = str "chiefs" ∷ [];
  user_groups = str "staff" ∷ [];
  group_claim = [];
  only = true;
  post_logout_redirect_uri = [];
}

abbrev token : Token
token = record {
  subject = str "sub";
  claims = ok (
      (str "groups", items (none ∷ some (str "staff") ∷ []))
      ∷ (str "picture", text (str "p"))
      ∷ []);
}

abbrev provider : Provider
provider = record { exchange = λ code verifier. ok (some code); verify = λ raw. ok token }

abbrev bob : User
bob = record {
  id = str "id";
  kind = str "oidc";
  email = none;
  password_hash = none;
  oidc_subject = some (str "sub");
  secret_hash = none;
  is_admin = true;
  created_at = 5;
  avatar_url = [];
}

abbrev world : World
world = record {
  users = bob ∷ [];
  sessions = [];
  resets = [];
  mails = [];
  statements = 0;
  drawn = 0;
}

abbrev demoted : User
demoted = record bob { is_admin = false; avatar_url = str "p" }

logged_in : (oidc_exchange env cfg (some provider) (str "c") (str "v") 9 world).0 ≡ ok demoted
unfolding oidc_exchange groups_check groups_in groups_configured text_of has_group_overlap
    user_by_oidc_subject user_by first Dict.lookup list_eq nat_eq
logged_in = refl

refused :
    (oidc_exchange env
      (record cfg { user_groups = str "board" ∷ [] })
      (some provider)
      (str "c")
      (str "v")
      9
      world).0
    ≡ err group_not_allowed
unfolding oidc_exchange groups_check groups_in has_group_overlap Dict.lookup list_eq nat_eq
refused = refl

is_configured : groups_configured cfg ≡ true
unfolding groups_configured
is_configured = refl

oidc_exchange-IsLogin_example :
    (raw : Str) × (t : Token) × (provider.exchange (str "c") (str "v") ≡ ok (some raw))
    × (provider.verify raw ≡ ok t)
    × IsLogin cfg t demoted
        (oidc_exchange env cfg (some provider) (str "c") (str "v") 9 world).1.users
oidc_exchange-IsLogin_example =
    oidc_exchange-IsLogin env cfg provider (str "c") (str "v") 9 world demoted is_configured
      logged_in
