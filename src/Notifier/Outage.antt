-- ===== src/Notifier/Outage.antt =====
-- internal/notifier/notifier.go: `runStale` announces an outage once, and its end once.
use tidy_dav.Prelude.{
  ◌+◌, ◌≡◌, refl, sym, ◌∙◌, ap, ◌⊎◌, inl, inr, Str, Bool, true, false, Option, none, some, List,
  Bool-cases,
}
use tidy_dav.Prelude.Int.{ℤ}
use tidy_dav.Prelude.Clock.{Time}
use tidy_dav.Prelude.Result.{Result, ok, err}
use tidy_dav.Store.Types
use tidy_dav.Store.Notified.{knows, knows-erase_self, is_notified, unmark_notified}
use tidy_dav.Notify.{Target}
use tidy_dav.Notify.Delivery.{dispatch-none}
use tidy_dav.Notifier.{Env, Feed, World, unmark, send, stale_key}
use tidy_dav.Notifier.Stale.{after_recovery, recover, healthy, is_stale, check_source}
use tidy_dav.Notifier.Once.{announce_known}
use tidy_dav.Notifier.Again.{NeverFails, announce-learns}

-- What the ledger says of a source: whether its outage has been announced.
abbrev pub announced : Env → Feed → Str → World → Bool
announced env feed url w = knows feed.id (stale_key env url) w.ledger

module _ (env : Env) (feed : Feed) (ts : List Target) (fine : NeverFails env) where
  is_notified-ok :
      (db : Option Str) (key : Str) (w : World)
      → db ≡ none
      → is_notified db feed.id key w.ledger ≡ ok (knows feed.id key w.ledger)
  unfolding is_notified
  is_notified-ok db key w h = rw h refl

  unmark-forgets :
      (key : Str) (w : World) → knows feed.id key (unmark env feed.id key w).ledger ≡ false
  unfolding unmark unmark_notified
  unmark-forgets key w = rw (fine.0 (w.statements + 0)) (knows-erase_self (feed.id, key) w.ledger)

  after_recovery-forgets :
      (key : Str) (r : Option Str) (w : World)
      → r ≡ none
      → knows feed.id key (after_recovery env feed ts key (r, w)).ledger ≡ false
  unfolding after_recovery
  after_recovery-forgets key none w h = unmark-forgets key w
  after_recovery-forgets key (some e) w h = cc

  -- A healthy source is forgotten.
  recover-forgets :
      (url : Str) (b : Bool) (w : World)
      → announced env feed url w ≡ b
      → announced env feed url (recover env feed ts url (ok b) w) ≡ false
  unfolding recover send
  recover-forgets url false w h = h
  recover-forgets url true w h =
      after_recovery-forgets (stale_key env url) _ _
        (dispatch-none env.post _ (λ k n. fine.1 k n _) ts w.wire)

  healthy-forgets :
      (url : Str) (w : World) → announced env feed url (healthy env feed ts url w) ≡ false
  unfolding healthy
  healthy-forgets url w =
      rw (is_notified-ok (env.db (w.statements + 0)) (stale_key env url) w (fine.0 _))
        (recover-forgets url _ _ refl)

  -- Where no statement and no post fails, the ledger says after the check of a source whether the
  -- source is stale.
  pub check_source-announced :
      (threshold : ℤ) (now fetched : Time) (url : Str) (w : World)
      → announced env feed url (check_source env feed ts threshold now url (ok fetched) w)
        ≡ is_stale env feed ts threshold now fetched
  unfolding check_source
  check_source-announced threshold now fetched url w =
      elim (Bool-cases (is_stale env feed ts threshold now fetched)) [
        | inl t ↦ rw (check_source, t) (announce-learns env feed ts fine (stale_key env url) _ w).0
        | inr f ↦ rw (check_source, f) (healthy-forgets url w)
      ]

module _ (env : Env) (feed : Feed) (ts : List Target) where
  recover-quiet :
      (url : Str) (r : Result Types.Error Bool) (w : World)
      → (r ≡ ok false) ⊎ ((e : Types.Error) × (r ≡ err e))
      → ((recover env feed ts url r w).wire ≡ w.wire)
        × ((recover env feed ts url r w).ledger ≡ w.ledger)
  unfolding recover
  recover-quiet url (err e) w h = (refl, refl)
  recover-quiet url (ok false) w h = (refl, refl)
  recover-quiet url (ok true) w (inl h) = cc
  recover-quiet url (ok true) w (inr h) = cc

  is_notified-unknown :
      (db : Option Str) (key : Str) (w : World)
      → knows feed.id key w.ledger ≡ false
      → (is_notified db feed.id key w.ledger ≡ ok false)
        ⊎ ((e : Types.Error) × (is_notified db feed.id key w.ledger ≡ err e))
  unfolding is_notified
  is_notified-unknown none key w h = inl (ap ok h)
  is_notified-unknown (some e) key w h = inr (_, refl)

  healthy-quiet :
      (url : Str) (w : World)
      → announced env feed url w ≡ false
      → ((healthy env feed ts url w).wire ≡ w.wire)
        × ((healthy env feed ts url w).ledger ≡ w.ledger)
  unfolding healthy
  healthy-quiet url w h = recover-quiet url _ _ (is_notified-unknown _ (stale_key env url) w h)

  -- A source whose outage the ledger has as announced exactly if the source is stale is checked
  -- without a post, and the ledger says the same of it afterwards, whichever statements fail.
  pub check_source-quiet :
      (threshold : ℤ) (now fetched : Time) (url : Str) (w : World)
      → announced env feed url w ≡ is_stale env feed ts threshold now fetched
      → ((check_source env feed ts threshold now url (ok fetched) w).wire ≡ w.wire)
        × (announced env feed url (check_source env feed ts threshold now url (ok fetched) w)
            ≡ announced env feed url w)
  unfolding check_source
  check_source-quiet threshold now fetched url w h =
      elim (Bool-cases (is_stale env feed ts threshold now fetched)) [
        | inl t ↦
            let (quiet, kept) = announce_known env feed ts (stale_key env url) _ w (h ∙ t) in
            rw (check_source, t) (quiet, kept (stale_key env url) (h ∙ t) ∙ sym (h ∙ t))
        | inr f ↦
            let (quiet, same) = healthy-quiet url w (h ∙ f) in
            rw (check_source, f) (quiet, ap (λ l. knows feed.id (stale_key env url) l) same)
      ]
