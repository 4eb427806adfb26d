-- ===== src/Feed/Render/Tests.antt =====
-- internal/feed/service.go: the window of two events, with years of 365 days.
use tidy_dav.Prelude.{
  ℕ, ◌+◌, ◌-◌, ◌*◌, ◌≡◌, refl, Str, str, false, none, some, List, [], ◌∷◌, arith, list_eq, nat_eq,
}
use tidy_dav.Prelude.Int.{ℤ, pos, negsuc}
use tidy_dav.Prelude.Clock.{Time, second}
use tidy_dav.Prelude.Sort.{sort_strings}
use tidy_dav.Prelude.Result.{ok, err}
use tidy_dav.Pipeline.{Child, event, other}
use tidy_dav.Pipeline.Rules.{Prop}
use tidy_dav.Feed.Render.{Env, event_window, referenced_tzids}
use tidy_dav.Feed.Render.Window.{IsCalendar, IsBounded, event_window-IsBounded}

abbrev year : ℕ
year = 365 * (24 * (3600 * second))

abbrev add_years : Time → ℤ → Time
add_years t (pos n) = t + n * year
add_years t (negsuc n) = t - (n + 1) * year

abbrev empty_prop : Prop
empty_prop = record { value = []; params = [] }

-- An event is its start.
abbrev env : Env Time Str Str Str
env = record {
  feed = record {
    ical = record {
      uid = λ e. [];
      recurrence_id = λ e. [];
      summary = λ e. [];
      dtstart = λ e. [];
      location = λ e. [];
      set_uid = λ s e. e;
      has_stamp = λ e. false;
      set_stamp = λ t e. e;
      start = λ e. some e;
      tzid = λ t. some t;
    };
    proxy = record {
      sha256 = λ s. s;
      redact_url = λ s. s;
      exchange = λ r. ok (record { status = 200; etag = []; body = ok [] });
    };
    parse = λ body. none;
    now = 0;
    put_at = 0;
  };
  pipeline = record {
    props = record {
      get = λ e f. none;
      set_text = λ e f v. e;
      del = λ e f. e;
      date_time_start = λ e. some e;
      date_time_end = λ e. none;
      to_upper = λ s. s;
    };
    to_lower = λ s. s;
    trim_space = λ s. s;
    format_date = λ t. [];
  };
  parts = record {
    children = λ e. [];
    set_children = λ e ks. e;
    is_alarm = λ k. false;
    to_component = λ a. [];
    get_prop = λ e f. none;
    set_prop = λ e f p. e;
    date_time = λ p l. none;
    dated = λ f t l. empty_prop;
    load_location = λ s. ok s;
    recurrence = record {
      trim_space = λ s. s;
      equal_fold = λ s t. false;
      parse = λ layout s. none;
    };
    now = 0;
  };
  regexps = record { compile = λ s. err s; quote_meta = λ s. s };
  decode_rules = λ s. none;
  tzids = λ e. str "b" ∷ str "a" ∷ str "b" ∷ [];
  add_years = add_years;
  midnight = λ t. t;
  vtimezone = λ id from to. none;
  encode = λ props cs. ok [];
  escape = λ s. s;
  format_time = λ t. [];
}

abbrev events : List (Child Time Str)
events = event (30 * year) ∷ other [] ∷ event (2 * year) ∷ []

-- The first event is too early and the last one too late for the bounds of year 10.
clamped_bounds : event_window env events (10 * year) ≡ (7 * year, 16 * year)
unfolding event_window
clamped_bounds = refl

sorted_ids : referenced_tzids env events ≡ str "a" ∷ str "b" ∷ []
unfolding referenced_tzids sort_strings list_eq nat_eq
sorted_ids = refl

laws : IsCalendar env
laws = record {
  next_year = λ t. omega arith;
  last_year = λ t. omega arith;
  third_year = λ t. omega arith;
  sixth_year = λ t. omega arith;
}

event_window-IsBounded_example :
    IsBounded env
      (10 * year)
      (event_window env events (10 * year)).0
      (event_window env events (10 * year)).1
event_window-IsBounded_example = event_window-IsBounded env laws events (10 * year)
