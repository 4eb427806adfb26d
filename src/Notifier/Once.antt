-- ===== src/Notifier/Once.antt =====
-- internal/notifier/notifier.go: `runMatches` announces an event once.
use tidy_dav.Prelude.{
  ◌≡◌, refl, ◌∙◌, subst, ◌⊎◌, inl, inr, Str, Bool, true, false, Option, none, some, List, [], ◌∷◌,
  Among, Bool-cases,
}
use tidy_dav.Prelude.Result.{Result, ok, err}
use tidy_dav.Store.Types
use tidy_dav.Store.Notified.{knows, mark_notified-knows, mark_notified-known, mark_notified-new}
use tidy_dav.Notify.{Target, Event, dispatch, FeedNotifications, triggered}
use tidy_dav.Notify.Delivery.{IsOutcome, dispatch-IsOutcome}
use tidy_dav.Notifier.{
  Env, Feed, World, MatchedEvent, RuleMatch, mark, unmark, send, after_dispatch, after_mark,
  announce, match_key, announce_events, announce_matches,
}

abbrev pub IsKnown : Feed → Str → World → Type 0
IsKnown feed key w = knows feed.id key w.ledger ≡ true

-- What the ledger knew for the feed, it knows still.
abbrev pub Remembers : Feed → World → World → Type 0
Remembers feed w w' = (key : Str) → IsKnown feed key w → IsKnown feed key w'

-- The keys of all events of the rules that are configured.
abbrev pub AllKnown : Feed → FeedNotifications → List RuleMatch → World → Type 0
AllKnown feed cfg [] w = Unit
AllKnown feed cfg (m ∷ ms) w =
    ((ev : MatchedEvent)
      → Among ev m.events
      → triggered cfg m.rule ≡ true
      → IsKnown feed (match_key m.rule ev) w)
    × AllKnown feed cfg ms w

module _ (env : Env) (feed : Feed) (ts : List Target) where
  pub mark-Remembers : (key : Str) (w : World) → Remembers feed w (mark env feed.id key w).1
  unfolding mark
  mark-Remembers key w other h = mark_notified-knows _ _ feed.id key w.ledger _ other h

  after_mark-quiet :
      (key : Str) (ev : Event) (r : Result Types.Error Bool) (w : World)
      → (r ≡ ok false) ⊎ ((e : Types.Error) × (r ≡ err e))
      → after_mark env feed ts key ev (r, w) ≡ w
  unfolding after_mark
  after_mark-quiet key ev (err e) w h = refl
  after_mark-quiet key ev (ok false) w h = refl
  after_mark-quiet key ev (ok true) w (inl h) = cc
  after_mark-quiet key ev (ok true) w (inr h) = cc

  announce-quiet :
      (key : Str) (ev : Event) (w : World)
      → IsKnown feed key w
      → announce env feed ts key ev w ≡ (mark env feed.id key w).1
  unfolding announce mark
  announce-quiet key ev w h =
      after_mark-quiet key ev _ _ (mark_notified-known _ _ feed.id key w.ledger _ h)

  pub announce_known :
      (key : Str) (ev : Event) (w : World)
      → IsKnown feed key w
      → ((announce env feed ts key ev w).wire ≡ w.wire)
        × Remembers feed w (announce env feed ts key ev w)
  unfolding mark
  announce_known key ev w h = rw (announce-quiet key ev w h) (refl, mark-Remembers key w)

  announce_events-known :
      (rule : Str) (evs : List MatchedEvent) (w : World)
      → ((ev : MatchedEvent) → Among ev evs → IsKnown feed (match_key rule ev) w)
      → ((announce_events env feed ts rule evs w).wire ≡ w.wire)
        × Remembers feed w (announce_events env feed ts rule evs w)
  unfolding announce_events
  announce_events-known rule [] w h = (refl, λ key k. k)
  announce_events-known rule (ev ∷ evs) w h =
      let (quiet, kept) = announce_known (match_key rule ev) _ w (h ev (inl refl)) in
      let (rest, still) =
        announce_events-known rule evs _ (λ e a. kept (match_key rule e) (h e (inr a))) in
      (rest ∙ quiet, λ key k. still key (kept key k))

  pub AllKnown-Remembers :
      (cfg : FeedNotifications) (ms : List RuleMatch) (w w' : World)
      → Remembers feed w w'
      → AllKnown feed cfg ms w
      → AllKnown feed cfg ms w'
  AllKnown-Remembers cfg [] w w' r h = tt
  AllKnown-Remembers cfg (m ∷ ms) w w' r (here, there) =
      (λ ev a t. r (match_key m.rule ev) (here ev a t), AllKnown-Remembers cfg ms w w' r there)

  -- Where the ledger knows every event that the rules have matched and that is configured,
  -- nothing is posted, whichever statements fail.
  pub announce_matches-quiet :
      (cfg : FeedNotifications) (ms : List RuleMatch) (w : World)
      → AllKnown feed cfg ms w
      → (announce_matches env feed ts cfg ms w).wire ≡ w.wire
  unfolding announce_matches
  announce_matches-quiet cfg [] w h = refl
  announce_matches-quiet cfg (m ∷ ms) w (here, there) = elim (Bool-cases (triggered cfg m.rule)) [
    | inl t ↦
        let (quiet, kept) = announce_events-known m.rule m.events w (λ ev a. here ev a t) in
        rw (announce_matches, t)
          (announce_matches-quiet cfg ms _ (AllKnown-Remembers cfg ms w _ kept there) ∙ quiet)
    | inr f ↦ rw (announce_matches, f) (announce_matches-quiet cfg ms w there)
  ]

  after_dispatch-IsRecorded :
      (key : Str) (w : World) (r : Option Str) (w' : World)
      → IsKnown feed key w'
      → ((e : Str) → r ≡ some e → w'.wire.sent ≡ w.wire.sent)
      → ((after_dispatch env feed ts key (r, w')).wire.sent ≡ w.wire.sent)
        ⊎ IsKnown feed key (after_dispatch env feed ts key (r, w'))
  unfolding after_dispatch unmark
  after_dispatch-IsRecorded key w none w' known lost = inr known
  after_dispatch-IsRecorded key w (some e) w' known lost = inl (lost e refl)

  send-lost :
      (ev : Event) (w : World) (e : Str)
      → (send env ts ev w).0 ≡ some e
      → (send env ts ev w).1.wire.sent ≡ w.wire.sent
  unfolding send
  send-lost ev w e failed =
      subst (λ r. IsOutcome ts w.wire (r, (dispatch env.post ts ev w.wire).1)) failed
        (dispatch-IsOutcome env.post ev ts w.wire).0

  after_mark-IsRecorded :
      (key : Str) (ev : Event) (r : Result Types.Error Bool) (w : World)
      → ((b : Bool) → r ≡ ok b → IsKnown feed key w)
      → ((after_mark env feed ts key ev (r, w)).wire.sent ≡ w.wire.sent)
        ⊎ IsKnown feed key (after_mark env feed ts key ev (r, w))
  unfolding after_mark send
  after_mark-IsRecorded key ev (err e) w known = inl refl
  after_mark-IsRecorded key ev (ok false) w known = inl refl
  after_mark-IsRecorded key ev (ok true) w known =
      after_dispatch-IsRecorded key w _ (send env ts ev w).1 (known true refl) (send-lost ev w)

  -- Nothing goes out that the ledger does not record: after an announcement the ledger knows its
  -- key, or no target has accepted the event, whichever statements and posts fail.
  pub announce-IsRecorded :
      (key : Str) (ev : Event) (w : World)
      → ((announce env feed ts key ev w).wire.sent ≡ w.wire.sent)
        ⊎ IsKnown feed key (announce env feed ts key ev w)
  unfolding announce mark
  announce-IsRecorded key ev w =
      after_mark-IsRecorded key ev _ (mark env feed.id key w).1
        (λ b. mark_notified-new _ _ feed.id key w.ledger _ b)
