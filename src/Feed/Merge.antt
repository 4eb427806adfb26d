-- ===== src/Feed/Merge.antt =====
-- internal/feed/service.go: which events a merge keeps.
use tidy_dav.Prelude.{
  ℕ, ◌==◌, eq_of_==, ◌++◌, Bool-cases, ◌≡◌, refl, sym, ◌∙◌, ap, subst, inl, inr, Str, Bool, true,
  false, Option, none, some, List, [], ◌∷◌, All, Among, is_empty, contains, contains-cons_self,
  contains-cons_of, list_eq, nat_eq, arith, if◌then◌else◌,
}
use tidy_dav.Prelude.Int.{ℤ}
use tidy_dav.Prelude.Clock.{Time, second, times}
use tidy_dav.Prelude.Result.{Result, ok, err}
use tidy_dav.Proxy
use tidy_dav.Proxy.{Cache, fetch_auth}
use tidy_dav.Store.Feeds.{FeedSource, Feed}
use tidy_dav.Feed.{
  Ical, Calendar, Env, Merged, ensure_stamp, dedup_id, add_nameless, add_named, add_event_if,
  add_event, add_events, add_calendar, add_body, add_sources, nothing, checked, merge,
}

-- A time stamp changes neither the UID nor the recurrence instance of an event.
pub record IsIcal {E T : Type 0} (ical : Ical E T) : Type 0 where
  pub uid-set_stamp : (t : Time) (e : E) → ical.uid (ical.set_stamp t e) ≡ ical.uid e
  pub recurrence_id-set_stamp :
      (t : Time) (e : E) → ical.recurrence_id (ical.set_stamp t e) ≡ ical.recurrence_id e

-- No text stands twice in the list.
abbrev pub Distinct : List Str → Type 0
Distinct [] = Unit
Distinct (x ∷ xs) = (contains xs x ≡ false) × Distinct xs

module _ {E T : Type 0} (env : Env E T) where
  abbrev pub ids : List E → List Str
  ids [] = []
  ids (e ∷ es) = dedup_id env e ∷ ids es

  -- Each identity that has been seen is that of an event which is kept.
  abbrev pub IsListed : Merged E T → Type 0
  IsListed m = (x : Str) → contains m.seen x ≡ true → contains (ids m.events) x ≡ true

  abbrev IsNamed : List E → Type 0
  IsNamed es = All (λ e. is_empty (env.ical.uid e) ≡ false) es

  -- The identities of the events are those seen, and no two are alike.
  abbrev IsExact : Merged E T → Type 0
  IsExact m = (ids m.events ≡ m.seen) × Distinct m.seen

contains-append_nul : (xs ys : Str) → contains (xs ++ 0 ∷ ys) 0 ≡ true
contains-append_nul [] ys = contains-cons_self 0 ys
contains-append_nul (x ∷ xs) ys = contains-cons_of 0 x (xs ++ 0 ∷ ys) (contains-append_nul xs ys)

contains-cons_zero : (x : ℕ) (xs : Str) → contains (x ∷ xs) 0 ≡ false → x ≡ 0 → ⊥
contains-cons_zero x xs h e =
    let t : contains (x ∷ xs) 0 ≡ true = rw e (contains-cons_self 0 xs) in cc

contains-tail : (x : ℕ) (xs : Str) → contains (x ∷ xs) 0 ≡ false → contains xs 0 ≡ false
contains-tail x xs h = elim (Bool-cases (contains xs 0)) [
  | inl t ↦ let u : contains (x ∷ xs) 0 ≡ true = contains-cons_of 0 x xs t in cc
  | inr f ↦ f
]

-- A text with one NUL is made of two parts in one way.
append-nul_injective :
    (xs ys us vs : Str)
    → contains xs 0 ≡ false
    → contains ys 0 ≡ false
    → xs ++ 0 ∷ ys ≡ us ++ 0 ∷ vs
    → (xs ≡ us) × (ys ≡ vs)
append-nul_injective [] ys [] vs p q e = (refl, cc)
append-nul_injective [] ys (u ∷ us) vs p q e =
    let tails : ys ≡ us ++ 0 ∷ vs = cc in
    let t : contains ys 0 ≡ true = rw tails (contains-append_nul us vs) in cc
append-nul_injective (x ∷ xs) ys [] vs p q e =
    let heads : x ≡ 0 = cc in absurd (contains-cons_zero x xs p heads)
append-nul_injective (x ∷ xs) ys (u ∷ us) vs p q e =
    let heads : x ≡ u = cc in
    let tails : xs ++ 0 ∷ ys ≡ us ++ 0 ∷ vs = cc in
    let (first, second) = append-nul_injective xs ys us vs (contains-tail x xs p) q tails in
    (rw (heads, first) refl, second)

module _ {E T : Type 0} (env : Env E T) where
  dedup_id-split :
      (e x : E)
      → contains (env.ical.uid e) 0 ≡ false
      → contains (env.ical.recurrence_id e) 0 ≡ false
      → dedup_id env e ≡ dedup_id env x
      → (env.ical.uid e ≡ env.ical.uid x) × (env.ical.recurrence_id e ≡ env.ical.recurrence_id x)
  unfolding dedup_id
  dedup_id-split e x p q same =
      append-nul_injective (env.ical.uid e) (env.ical.recurrence_id e) (env.ical.uid x) _ p q same

  Among-ids :
      (k : Str) (es : List E)
      → contains (ids env es) k ≡ true
      → (x : E) × Among x es × (dedup_id env x ≡ k)
  Among-ids k [] h = cc
  Among-ids k (e ∷ es) h = elim (Bool-cases (dedup_id env e == k)) [
    | inl t ↦ (e, inl refl, eq_of_== (dedup_id env e) k t)
    | inr f ↦ let (x, among, same) = Among-ids k es (ground arith) in (x, inr among, same)
  ]

module _ {E T : Type 0} (env : Env E T) (laws : IsIcal env.ical) where
  dedup_id-stamp :
      (b : Bool) (t : Time) (e : E)
      → dedup_id env (if b then e else env.ical.set_stamp t e) ≡ dedup_id env e
  unfolding dedup_id
  dedup_id-stamp true t e = refl
  dedup_id-stamp false t e = rw (laws.uid-set_stamp t e, laws.recurrence_id-set_stamp t e) refl

  dedup_id-ensure_stamp : (e : E) → dedup_id env (ensure_stamp env e) ≡ dedup_id env e
  unfolding ensure_stamp
  dedup_id-ensure_stamp e = dedup_id-stamp (env.ical.has_stamp e) _ e

  add_named-IsListed :
      (b : Bool) (e : E) (m : Merged E T) → IsListed env m → IsListed env (add_named env b e m)
  unfolding add_named
  add_named-IsListed true e m h x k = h x k
  add_named-IsListed false e m h x k = ground (arith, dedup_id-ensure_stamp e, h x)

  add_event_if-IsListed :
      (b : Bool) (url : Str) (e : E) (m : Merged E T)
      → IsListed env m
      → IsListed env (add_event_if env b url e m)
  unfolding add_event_if add_nameless
  add_event_if-IsListed true url e m h x k = contains-cons_of x _ (ids env m.events) (h x k)
  add_event_if-IsListed false url e m h x k = add_named-IsListed _ e m h x k

  add_event-IsListed :
      (url : Str) (e : E) (m : Merged E T) → IsListed env m → IsListed env (add_event env url e m)
  unfolding add_event
  add_event-IsListed url e m h = add_event_if-IsListed (is_empty (env.ical.uid e)) url e m h

  add_named-keeps :
      (b : Bool) (e : E) (m : Merged E T) (x : Str)
      → contains (ids env m.events) x ≡ true
      → contains (ids env (add_named env b e m).events) x ≡ true
  unfolding add_named
  add_named-keeps true e m x h = h
  add_named-keeps false e m x h = contains-cons_of x _ (ids env m.events) h

  add_event_if-keeps :
      (b : Bool) (url : Str) (e : E) (m : Merged E T) (x : Str)
      → contains (ids env m.events) x ≡ true
      → contains (ids env (add_event_if env b url e m).events) x ≡ true
  unfolding add_event_if add_nameless
  add_event_if-keeps true url e m x h = contains-cons_of x _ (ids env m.events) h
  add_event_if-keeps false url e m x h = add_named-keeps _ e m x h

  add_named-adds :
      (b : Bool) (e : E) (m : Merged E T)
      → contains m.seen (dedup_id env e) ≡ b
      → IsListed env m
      → contains (ids env (add_named env b e m).events) (dedup_id env e) ≡ true
  unfolding add_named
  add_named-adds true e m seen h = h (dedup_id env e) seen
  add_named-adds false e m seen h =
      rw (dedup_id-ensure_stamp e) (contains-cons_self (dedup_id env e) (ids env m.events))

  add_event-adds :
      (url : Str) (e : E) (m : Merged E T)
      → is_empty (env.ical.uid e) ≡ false
      → IsListed env m
      → contains (ids env (add_event env url e m).events) (dedup_id env e) ≡ true
  unfolding add_event add_event_if
  add_event-adds url e m named h = rw named (add_named-adds _ e m refl h)

  add_events-keeps :
      (url : Str) (es : List E) (m : Merged E T) (x : Str)
      → contains (ids env m.events) x ≡ true
      → contains (ids env (add_events env url es m).events) x ≡ true
  unfolding add_events add_event
  add_events-keeps url [] m x h = h
  add_events-keeps url (e ∷ es) m x h =
      add_events-keeps url es _ x (add_event_if-keeps (is_empty (env.ical.uid e)) url e m x h)

  add_events-contains :
      (url : Str) (es : List E) (m : Merged E T) (e : E)
      → IsListed env m
      → Among e es
      → is_empty (env.ical.uid e) ≡ false
      → contains (ids env (add_events env url es m).events) (dedup_id env e) ≡ true
  unfolding add_events
  add_events-contains url [] m e h a named = absurd a
  add_events-contains url (d ∷ es) m e h (inl same) named =
      subst
        (λ y.
          contains (ids env (add_events env url es (add_event env url d m)).events) (dedup_id env y)
          ≡ true)
        (sym same)
        (add_events-keeps url es _ _
          (add_event-adds url d m (ap (λ y. is_empty (env.ical.uid y)) (sym same) ∙ named) h))
  add_events-contains url (d ∷ es) m e h (inr later) named =
      add_events-contains url es (add_event env url d m) e (add_event-IsListed url d m h) later
        named

  -- Every event of a source that has a UID is in the merge after the source has been added, or
  -- another one with the same UID and the same recurrence instance is, if neither of the two texts
  -- has a NUL.
  pub add_events-listed :
      (url : Str) (es : List E) (m : Merged E T) (e : E)
      → IsListed env m
      → Among e es
      → is_empty (env.ical.uid e) ≡ false
      → contains (env.ical.uid e) 0 ≡ false
      → contains (env.ical.recurrence_id e) 0 ≡ false
      → (x : E) × Among x (add_events env url es m).events
        × (env.ical.uid x ≡ env.ical.uid e)
        × (env.ical.recurrence_id x ≡ env.ical.recurrence_id e)
  add_events-listed url es m e h a named p q =
      let (x, among, same) =
        Among-ids env (dedup_id env e) (add_events env url es m).events
          (add_events-contains url es m e h a named) in
      let (uid, rec) = dedup_id-split env e x p q (sym same) in (x, among, sym uid, sym rec)

  add_named-IsExact :
      (b : Bool) (e : E) (m : Merged E T)
      → contains m.seen (dedup_id env e) ≡ b
      → IsExact env m
      → IsExact env (add_named env b e m)
  unfolding add_named
  add_named-IsExact true e m seen h = h
  add_named-IsExact false e m seen (same, distinct) =
      (rw (dedup_id-ensure_stamp e, same) refl, (seen, distinct))

  add_event-IsExact :
      (url : Str) (e : E) (m : Merged E T)
      → is_empty (env.ical.uid e) ≡ false
      → IsExact env m
      → IsExact env (add_event env url e m)
  unfolding add_event add_event_if
  add_event-IsExact url e m named h = rw (add_event, named) (add_named-IsExact _ e m refl h)

  add_events-IsExact :
      (url : Str) (es : List E) (m : Merged E T)
      → IsNamed env es
      → IsExact env m
      → IsExact env (add_events env url es m)
  unfolding add_events
  add_events-IsExact url [] m named h = h
  add_events-IsExact url (e ∷ es) m (first, rest) h =
      add_events-IsExact url es _ rest (add_event-IsExact url e m first h)

  -- Every event that the parser yields has a UID.
  abbrev pub AllNamed : Type 0
  AllNamed =
      (body : Str) → (cal : Calendar E T) → env.parse body ≡ some cal → IsNamed env cal.events

  add_calendar-IsExact :
      (url : Str) (o : Option (Calendar E T)) (m : Merged E T)
      → ((cal : Calendar E T) → o ≡ some cal → IsNamed env cal.events)
      → IsExact env m
      → IsExact env (add_calendar env url o m)
  unfolding add_calendar
  add_calendar-IsExact url none m named h = h
  add_calendar-IsExact url (some cal) m named h =
      add_events-IsExact url cal.events _ (named cal refl) h

  module _ (named : AllNamed) where
    add_body-IsExact :
        (url : Str) (r : Result Proxy.Error (Str × Proxy.Source)) (m : Merged E T)
        → IsExact env m
        → IsExact env (add_body env url r m)
    unfolding add_body
    add_body-IsExact url (err e) m h = h
    add_body-IsExact url (ok (body, source)) m h =
        add_calendar-IsExact url (env.parse body) m (named body) h

    add_sources-IsExact :
        {St : Type 0} (cache : Cache St) (ttl : ℤ) (srcs : List FeedSource) (m : Merged E T)
        (s : St)
        → IsExact env m
        → IsExact env (add_sources env cache ttl srcs m s).0
    unfolding add_sources
    add_sources-IsExact cache ttl [] m s h = h
    add_sources-IsExact cache ttl (src ∷ srcs) m s h =
        add_sources-IsExact cache ttl srcs _ _ (add_body-IsExact src.url _ m h)

  checked-some :
      (srcs : List FeedSource) (m m' : Merged E T) → checked env srcs m ≡ some m' → m ≡ m'
  checked-some srcs m m' h = ground arith

  -- If every event of every source has a UID, no two events of a merge have both the same UID and
  -- the same recurrence instance, whichever sources can be fetched.
  pub merge-Distinct :
      {St : Type 0} (cache : Cache St) (f : Feed) (s : St) (m : Merged E T)
      → AllNamed
      → (merge env cache f s).0 ≡ some m
      → Distinct (ids env m.events)
  unfolding merge
  merge-Distinct cache f s m named merged =
      let (same, distinct) =
        add_sources-IsExact named cache (times second f.ttl_seconds) f.sources (nothing env) s
          (refl, tt) in
      subst (λ v. Distinct (ids env v.events)) (checked-some f.sources _ m merged)
        (subst Distinct (sym same) distinct)
