-- ===== src/Pipeline/Tests.antt =====
-- internal/pipeline/rules.go: the rules on three events whose only field is themselves.
use tidy_dav.Prelude.{ℕ, ◌+◌, ◌≡◌, refl, Str, str, not, none, some, List, [], ◌∷◌, list_eq, nat_eq}
use tidy_dav.Pipeline.{
  Child, event, other, Env, substring, blacklist, whitelist, FilterRule, rule_matches, dedup_key,
  apply_filter, apply_dedup,
}
use tidy_dav.Pipeline.Filter.{only, count_events, apply_filter-partition}
use tidy_dav.Pipeline.Dedup.{IsFresh, apply_dedup-IsFresh}

abbrev env : Env Str
env = record {
  props = record {
    get = λ e f. some e;
    set_text = λ e f v. v;
    del = λ e f. [];
    date_time_start = λ e. none;
    date_time_end = λ e. none;
    to_upper = λ s. s;
  };
  to_lower = λ s. s;
  trim_space = λ s. s;
  format_date = λ t. [];
}

abbrev rule : FilterRule
rule = record { matcher = substring (str "aper"); fields = str "SUMMARY" ∷ []; mode = whitelist }

abbrev calendar : List (Child Str ℕ)
calendar = event (str "paper") ∷ other 7 ∷ event (str "glass") ∷ event (str "paper") ∷ []

papers :
    (apply_filter env rule calendar).0 ≡ event (str "paper") ∷ other 7 ∷ event (str "paper") ∷ []
unfolding apply_filter rule_matches list_eq nat_eq
papers = refl

once :
    apply_dedup env (str "SUMMARY" ∷ []) calendar
    ≡ event (str "paper") ∷ other 7 ∷ event (str "glass") ∷ []
unfolding apply_dedup dedup_key list_eq nat_eq
once = refl

apply_filter-partition_example :
    ((apply_filter env rule calendar).0 ≡ only (rule_matches env rule) calendar)
    × ((apply_filter env (record rule { mode = blacklist }) calendar).0
        ≡ only (λ e. not (rule_matches env rule e)) calendar)
    × (count_events (apply_filter env rule calendar).0
          + count_events (apply_filter env (record rule { mode = blacklist }) calendar).0
        ≡ 3)
apply_filter-partition_example = apply_filter-partition env rule calendar

apply_dedup-IsFresh_example :
    IsFresh env (str "SUMMARY" ∷ []) [] (apply_dedup env (str "SUMMARY" ∷ []) calendar)
    × (apply_dedup env (str "SUMMARY" ∷ []) (apply_dedup env (str "SUMMARY" ∷ []) calendar)
        ≡ apply_dedup env (str "SUMMARY" ∷ []) calendar)
apply_dedup-IsFresh_example = apply_dedup-IsFresh env (str "SUMMARY" ∷ []) calendar
