-- ===== src/Server/Sample.antt =====
-- internal/server: an environment, two feeds of one user and a job, for the tests.
use tidy_dav.Prelude.{
  ◌+◌, Str, str, true, false, none, some, List, [], ◌∷◌, is_empty, list_eq, nat_eq, ◌==◌,
  if◌then◌else◌,
}
use tidy_dav.Prelude.Int.{pos}
use tidy_dav.Prelude.Result.{ok, err}
use tidy_dav.Store.Users.{User}
use tidy_dav.Store.Feeds.{Feed, FeedSource}
use tidy_dav.Store.SyncJobs.{SyncJob}
use tidy_dav.Pipeline.Rules.{Prop}
use tidy_dav.Server.{Env, World}

abbrev pub empty_prop : Prop
empty_prop = record { value = []; params = [] }

abbrev pub env : Env
env = record {
  E = Str;
  C = Str;
  K = Str;
  L = Str;
  pipeline = record {
    props = record {
      get = λ e f. none;
      set_text = λ e f v. e;
      del = λ e f. e;
      date_time_start = λ e. none;
      date_time_end = λ e. none;
      to_upper = λ s. s;
    };
    to_lower = λ s. s;
    trim_space = λ s. s;
    format_date = λ t. [];
  };
  parts = record {
    children = λ e. [];
    set_children = λ e ks. e;
    is_alarm = λ k. false;
    to_component = λ a. [];
    get_prop = λ e f. none;
    set_prop = λ e f p. e;
    date_time = λ p l. none;
    dated = λ f t l. empty_prop;
    load_location = λ s. ok s;
    recurrence = record {
      trim_space = λ s. s;
      equal_fold = λ s t. false;
      parse = λ layout s. none;
    };
    now = 0;
  };
  regexps = record { compile = λ s. err s; quote_meta = λ s. s };
  print_error = λ e. [];
  decode_rules = λ s. none;
  unmarshal_notifications = λ s. (
    record {
      webhook_url = [];
      ntfy_server = [];
      ntfy_topic = [];
      gotify_server = [];
      gotify_token = [];
      triggers = [];
      source_stale_hours = pos 0;
    },
    true,
  );
  marshal_notifications = λ n. ok [];
  db = λ n. none;
  now = λ n. n + 1;
  random_token = λ n. ok (n ∷ []);
  trim_space = λ s. s;
  parse_url = λ s. if is_empty s then none else some (str "http", s);
  hash_password = λ s. ok s;
  check_password = λ hash pass. hash == pass;
  format_time = λ t. [];
  base_url = str "http://a";
  preview = λ n f rows. (ok ([], []), rows);
  check_source = λ n url user pass rows. (ok 0, rows);
  render = λ n f rows. (ok f.name, rows);
  sha256 = λ s. s;
  window = record { parse_date = λ s. none; parse_rfc3339 = λ s. err s };
  run_one = λ n j js. (true, js);
  preview_merge = λ p. err [];
}

abbrev pub user : Str → User
user id = record {
  id = id;
  kind = str "local";
  email = none;
  password_hash = none;
  oidc_subject = none;
  secret_hash = none;
  is_admin = false;
  created_at = 0;
  avatar_url = [];
}

abbrev pub source : Str → Str → FeedSource
source url password = record { url = url; username = []; password = password }

abbrev pub sources : List FeedSource
sources = source (str "u") (str "p") ∷ source (str "v") [] ∷ []

abbrev pub feed : Str → Feed
feed id = record {
  id = id;
  user_id = str "anna";
  name = str "ABC";
  secret = str "s";
  sources = sources;
  rules = str "[]";
  ttl_seconds = pos 0;
  basic_auth_user = str "x";
  basic_auth_hash = str "h";
  notifications = str "{}";
  last_served_at = 0;
  serve_count = 0;
  created_at = 0;
  updated_at = 0;
}

abbrev pub job : SyncJob
job = record {
  id = str "j";
  user_id = str "anna";
  name = str "n";
  kind = str "caldav";
  direction = str "bidirectional";
  conflict = str "newest-wins";
  a_url = str "u";
  a_username = [];
  a_password = str "p";
  b_url = str "v";
  b_username = [];
  b_password = str "q";
  interval_seconds = pos 900;
  enabled = true;
  window_start = [];
  window_end = [];
  state = str "{}";
  last_run_at = 0;
  last_status = str "ok";
  created_at = 0;
  updated_at = 0;
}

abbrev pub world : World
world = record {
  feeds = feed (str "f") ∷ feed (str "g") ∷ [];
  jobs = job ∷ [];
  audit = [];
  cache = [];
  statements = 0;
  drawn = 0;
}
