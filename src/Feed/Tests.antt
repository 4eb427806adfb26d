-- ===== src/Feed/Tests.antt =====
-- internal/feed/service.go: a merge of two sources with events of two fields.
use tidy_dav.Prelude.{
  Among, ◌≡◌, refl, subst, inl, inr, Str, str, true, false, none, some, List, [], ◌∷◌, contains,
  is_empty, list_eq, nat_eq, All,
}
use tidy_dav.Prelude.Int.{pos}
use tidy_dav.Prelude.Dict
use tidy_dav.Prelude.Result.{ok}
use tidy_dav.Proxy.{fetch_auth}
use tidy_dav.Proxy.Served.{feed_cache}
use tidy_dav.Store.Feeds.{Feed}
use tidy_dav.Feed.{Ical, Calendar, Env, Merged, dedup_id, add_events, nothing, merge}
use tidy_dav.Feed.Merge.{IsIcal, Distinct, ids, AllNamed, merge-Distinct, add_events-listed}

-- An event is its UID and its recurrence instance.
abbrev E : Type 0
E = Str × Str

abbrev ical : Ical E Str
ical = record {
  uid = λ e. e.0;
  recurrence_id = λ e. e.1;
  summary = λ e. [];
  dtstart = λ e. [];
  location = λ e. [];
  set_uid = λ s e. (s, e.1);
  has_stamp = λ e. true;
  set_stamp = λ t e. e;
  start = λ e. none;
  tzid = λ t. some t;
}

abbrev series : List E
series = (str "1", []) ∷ (str "1", str "r") ∷ (str "1", []) ∷ []

abbrev source : Calendar E Str
source = record { events = series; timezones = [] }

abbrev env : Env E Str
env = record {
  ical = ical;
  proxy = record {
    sha256 = λ s. s;
    redact_url = λ s. s;
    exchange = λ r. ok (record { status = 200; etag = []; body = ok [] });
  };
  parse = λ body. some source;
  now = 1;
  put_at = 1;
}

ical-IsIcal : IsIcal ical
ical-IsIcal = record { uid-set_stamp = λ t e. refl; recurrence_id-set_stamp = λ t e. refl }

abbrev feed : Feed
feed = record {
  id = str "f";
  sources =
      record { url = str "u"; username = []; password = [] }
      ∷ record { url = str "v"; username = []; password = [] }
      ∷ [];
  ttl_seconds = pos 0;
  user_id = [];
  name = [];
  secret = [];
  rules = [];
  basic_auth_user = [];
  basic_auth_hash = [];
  notifications = [];
  last_served_at = 0;
  serve_count = 0;
  created_at = 0;
  updated_at = 0;
}

abbrev kept : Merged E Str
kept = record {
  events = (str "1", str "r") ∷ (str "1", []) ∷ [];
  seen = (49 ∷ 0 ∷ str "r") ∷ (49 ∷ 0 ∷ []) ∷ [];
  sequence = [];
  timezones = [];
  fetched = 2;
}

merged : (merge env (feed_cache none none 9) feed []).0 ≡ some kept
unfolding merge fetch_auth feed_cache Dict.lookup Dict.insert list_eq nat_eq dedup_id
merged = refl

env-AllNamed : AllNamed env ical-IsIcal
env-AllNamed body cal parsed =
    let same : source ≡ cal = cc in
    subst (λ c. All (λ e. is_empty (ical.uid e) ≡ false) c.events) same (refl, (refl, (refl, tt)))

merge-Distinct_example : Distinct (ids env ((str "1", str "r") ∷ (str "1", []) ∷ []))
merge-Distinct_example =
    merge-Distinct env ical-IsIcal (feed_cache none none 9) feed [] kept env-AllNamed merged

nothing-IsListed : (x : Str) → contains [] x ≡ true → contains [] x ≡ true
nothing-IsListed x h = h

add_events-listed_example :
    (x : Str × Str) × Among x (add_events env (str "u") series (nothing env)).events
    × (env.ical.uid x ≡ str "1")
    × (env.ical.recurrence_id x ≡ str "r")
unfolding nat_eq
add_events-listed_example =
    add_events-listed env ical-IsIcal (str "u") series (nothing env) (str "1", str "r")
      nothing-IsListed (inr (inl refl)) refl refl refl
