-- ===== src/Notifier/Again.antt =====
-- internal/notifier/notifier.go: a run of `runMatches` in which nothing fails announces all there
-- is, so that the next one is silent.
use tidy_dav.Prelude.{
  ℕ, ◌+◌, ◌≡◌, refl, inl, inr, Str, Bool, true, false, Option, none, some, List, [], ◌∷◌, Among,
  Bool-cases,
}
use tidy_dav.Prelude.Result.{Result, ok, err}
use tidy_dav.Store.Types
use tidy_dav.Store.FeedCache.{Rows}
use tidy_dav.Store.Notified.{mark_notified-new, mark_notified-ok}
use tidy_dav.Notify.{Target, Event, FeedNotifications, triggered}
use tidy_dav.Notify.Delivery.{dispatch-none}
use tidy_dav.Notifier.{
  Env, Feed, World, MatchedEvent, RuleMatch, mark, send, after_dispatch, after_mark, announce,
  match_key, announce_events, announce_matches, with_matches, run_matches,
}
use tidy_dav.Notifier.Once.{IsKnown, Remembers, AllKnown, mark-Remembers, announce_matches-quiet}

-- No statement and no post fails.
abbrev pub NeverFails : Env → Type 0
NeverFails env =
    ((k : ℕ) → env.db k ≡ none) × ((k : ℕ) → (n : Target) → (ev : Event) → env.post k n ev ≡ none)

module _ (env : Env) (feed : Feed) (ts : List Target) (fine : NeverFails env) where
  after_dispatch-same :
      (key : Str) (r : Option Str) (w : World)
      → r ≡ none
      → (after_dispatch env feed ts key (r, w)).ledger ≡ w.ledger
  unfolding after_dispatch
  after_dispatch-same key none w h = refl
  after_dispatch-same key (some e) w h = cc

  after_mark-same :
      (key : Str) (ev : Event) (r : Result Types.Error Bool) (w : World)
      → (after_mark env feed ts key ev (r, w)).ledger ≡ w.ledger
  unfolding after_mark send
  after_mark-same key ev (err e) w = refl
  after_mark-same key ev (ok false) w = refl
  after_mark-same key ev (ok true) w =
      after_dispatch-same key _ (send env ts ev w).1
        (dispatch-none env.post ev (λ k n. fine.1 k n ev) ts w.wire)

  announce-same :
      (key : Str) (ev : Event) (w : World)
      → (announce env feed ts key ev w).ledger ≡ (mark env feed.id key w).1.ledger
  unfolding announce mark
  announce-same key ev w = after_mark-same key ev _ (mark env feed.id key w).1

  mark-IsKnown : (key : Str) (w : World) → IsKnown feed key (mark env feed.id key w).1
  unfolding mark
  mark-IsKnown key w =
      let (b, marked) =
        mark_notified-ok (env.db (w.statements + 0)) (env.db (w.statements + 1))
          (env.now w.statements) feed.id key w.ledger (fine.0 _) (fine.0 _) in
      mark_notified-new _ _ feed.id key w.ledger _ b marked

  pub announce-learns :
      (key : Str) (ev : Event) (w : World)
      → IsKnown feed key (announce env feed ts key ev w)
        × Remembers feed w (announce env feed ts key ev w)
  announce-learns key ev w = (
    rw (announce-same key ev w) (mark-IsKnown key w),
    λ other h. rw (announce-same key ev w) (mark-Remembers env feed ts key w other h),
  )

  announce_events-learns :
      (rule : Str) (evs : List MatchedEvent) (w : World)
      → ((ev : MatchedEvent)
          → Among ev evs
          → IsKnown feed (match_key rule ev) (announce_events env feed ts rule evs w))
        × Remembers feed w (announce_events env feed ts rule evs w)
  unfolding announce_events
  announce_events-learns rule [] w = (λ ev a. absurd a, λ key h. h)
  announce_events-learns rule (ev ∷ evs) w =
      let (known, kept) = announce-learns (match_key rule ev) _ w in
      let (rest, still) = announce_events-learns rule evs _ in
      (
        λ e a. elim a [ inl same ↦ rw same (still _ known) | inr later ↦ rest e later ],
        λ key h. still key (kept key h),
      )

  announce_matches-learns :
      (cfg : FeedNotifications) (ms : List RuleMatch) (w : World)
      → AllKnown feed cfg ms (announce_matches env feed ts cfg ms w)
        × Remembers feed w (announce_matches env feed ts cfg ms w)
  unfolding announce_matches
  announce_matches-learns cfg [] w = (tt, λ key h. h)
  announce_matches-learns cfg (m ∷ ms) w =
      let (known, kept) = announce_events-learns m.rule m.events w in
      elim (Bool-cases (triggered cfg m.rule)) [
        | inl t ↦
            let (rest, still) =
              announce_matches-learns cfg ms (announce_events env feed ts m.rule m.events w) in
            rw (announce_matches, t)
              ((λ ev a t'. still _ (known ev a), rest), λ key h. still key (kept key h))
        | inr f ↦
            let (rest, still) = announce_matches-learns cfg ms w in
            rw (announce_matches, f) ((λ ev a t'. cc, rest), still)
      ]

with_matches-learns :
    (env : Env) (feed : Feed) (ts : List Target) (cfg : FeedNotifications) (w : World)
    (ms : List RuleMatch) (rows : Rows) (r : Result Str (List RuleMatch) × Rows)
    → NeverFails env
    → r ≡ (ok ms, rows)
    → AllKnown feed cfg ms (with_matches env feed ts cfg r w)
unfolding with_matches
with_matches-learns env feed ts cfg w ms rows r fine h =
    rw h (announce_matches-learns env feed ts fine cfg ms (record w { cache = rows })).0

AllKnown-cache :
    (feed : Feed) (cfg : FeedNotifications) (ms : List RuleMatch) (w : World) (rows : Rows)
    → AllKnown feed cfg ms w
    → AllKnown feed cfg ms (record w { cache = rows })
AllKnown-cache feed cfg [] w rows h = tt
AllKnown-cache feed cfg (m ∷ ms) w rows (here, there) =
    (here, AllKnown-cache feed cfg ms w rows there)

with_matches-quiet :
    (env : Env) (feed : Feed) (ts : List Target) (cfg : FeedNotifications) (w : World)
    (ms : List RuleMatch) (rows : Rows) (r : Result Str (List RuleMatch) × Rows)
    → r ≡ (ok ms, rows)
    → AllKnown feed cfg ms w
    → (with_matches env feed ts cfg r w).wire ≡ w.wire
unfolding with_matches
with_matches-quiet env feed ts cfg w ms rows r h known = rw h (
    announce_matches-quiet env feed ts cfg ms (record w { cache = rows })
      (AllKnown-cache feed cfg ms w rows known))

-- After a run over a feed's matches in which no statement and no post fails, a second run that
-- finds the same matches posts nothing, whatever fails in it.
pub run_matches-again :
    (env env' : Env) (feed : Feed) (ts ts' : List Target) (cfg : FeedNotifications) (w : World)
    (ms : List RuleMatch) (rows rows' : Rows)
    → NeverFails env
    → env.matches w.statements feed w.cache ≡ (ok ms, rows)
    → env'.matches
        (run_matches env feed ts cfg w).statements
        feed
        (run_matches env feed ts cfg w).cache
      ≡ (ok ms, rows')
    → (run_matches env' feed ts' cfg (run_matches env feed ts cfg w)).wire
      ≡ (run_matches env feed ts cfg w).wire
unfolding run_matches
run_matches-again env env' feed ts ts' cfg w ms rows rows' fine first second =
    with_matches-quiet env' feed ts' cfg (run_matches env feed ts cfg w) ms rows' _ second
      (with_matches-learns env feed ts cfg w ms rows _ fine first)
