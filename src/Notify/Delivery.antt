-- ===== src/Notify/Delivery.antt =====
-- internal/notify/notify.go: what `Dispatch` does with the targets, whichever of them fail.
use tidy_dav.Prelude.{
  ℕ, zero, suc, ◌+◌, ◌<◌, ◌≡◌, refl, sym, ◌∙◌, ap, ◌⊎◌, inl, inr, Str, Bool, true, false, not,
  Option, none, some, List, [], ◌∷◌, ◌++◌, length, length-append, is_empty, arith,
}
use tidy_dav.Notify.{
  Target, Event, Wire, Post, Tally, posted, post_all, verdict, dispatch, FeedNotifications,
  has_target, targets,
}

-- Some post has been answered, with success or with an error.
abbrev heard : Tally → Bool
heard (zero, none) = false
heard (zero, some e) = true
heard (suc n, last) = true

-- The tally and the wire after `k` posts that began with the tally and the wire given.
abbrev IsRun : Tally → Wire → ℕ → Tally × Wire → Type 0
IsRun (delivered, last) w k ((delivered', last'), w') =
    (w'.posts ≡ w.posts + k)
    × (xs : List (Target × Event)) × (w'.sent ≡ xs ++ w.sent)
    × (delivered' ≡ delivered + length xs)

posted-IsRun :
    (n : Target) (ev : Event) (r : Option Str) (tally : Tally) (w : Wire)
    → IsRun tally w 1 (posted n ev r tally w)
unfolding posted
posted-IsRun n ev none (d, l) w = (omega arith, (n, ev) ∷ [], refl, omega arith)
posted-IsRun n ev (some e) (d, l) w = (omega arith, [], refl, omega arith)

posted-heard :
    (n : Target) (ev : Event) (r : Option Str) (tally : Tally) (w : Wire)
    → heard (posted n ev r tally w).0 ≡ true
unfolding posted
posted-heard n ev none (d, l) w = refl
posted-heard n ev (some e) (zero, l) w = refl
posted-heard n ev (some e) (suc d, l) w = refl

append_assoc : {A : Type 0} (xs ys zs : List A) → xs ++ ys ++ zs ≡ xs ++ (ys ++ zs)
append_assoc [] ys zs = refl
append_assoc (x ∷ xs) ys zs = rw (append_assoc xs)

IsRun-trans :
    (t : Tally) (w : Wire) (k : ℕ) (m n : Tally × Wire) (j c : ℕ)
    → IsRun t w j m
    → IsRun m.0 m.1 k n
    → c ≡ j + k
    → IsRun t w c n
IsRun-trans t w k m n j c (p, xs, s, d) (p', ys, s', d') e = (
  omega arith,
  ys ++ xs,
  s' ∙ ap (λ z. ys ++ z) s ∙ sym (append_assoc ys xs w.sent),
  omega (arith, length-append ys xs),
)

module _ (post : Post) (ev : Event) where
  post_all-IsRun :
      (ns : List Target) (tally : Tally) (w : Wire)
      → IsRun tally w (length ns) (post_all post ev ns tally w)
  unfolding post_all
  post_all-IsRun [] tally w = (omega arith, [], refl, omega arith)
  post_all-IsRun (n ∷ ns) tally w =
      let step : Tally × Wire = posted n ev (post w.posts n ev) tally w in
      IsRun-trans tally w (length ns) step (post_all post ev ns step.0 step.1) 1 (length (n ∷ ns))
        (posted-IsRun n ev (post w.posts n ev) tally w) (post_all-IsRun ns step.0 step.1)
        (omega arith)

  post_all-heard :
      (ns : List Target) (tally : Tally) (w : Wire)
      → heard tally ≡ true
      → heard (post_all post ev ns tally w).0 ≡ true
  unfolding post_all
  post_all-heard [] tally w h = h
  post_all-heard (n ∷ ns) tally w h =
      post_all-heard ns _ _ (posted-heard n ev (post w.posts n ev) tally w)

module _ (post : Post) (ev : Event) where
  abbrev if_accepted : Option Str → Target → List (Target × Event)
  if_accepted none n = (n, ev) ∷ []
  if_accepted (some e) n = []

  -- The targets that accept the event, each with the event, the last one first, where the posts to
  -- them are one after the other and the first is number `k`.
  abbrev pub accepted : ℕ → List Target → List (Target × Event)
  accepted k [] = []
  accepted k (n ∷ ns) = accepted (suc k) ns ++ if_accepted (post k n ev) n

  posted-sent :
      (n : Target) (r : Option Str) (tally : Tally) (w : Wire)
      → ((posted n ev r tally w).1.sent ≡ if_accepted r n ++ w.sent)
        × ((posted n ev r tally w).1.posts ≡ suc w.posts)
  unfolding posted
  posted-sent n none (d, l) w = (refl, refl)
  posted-sent n (some e) (d, l) w = (refl, refl)

  post_all-sent :
      (ns : List Target) (tally : Tally) (w : Wire)
      → (post_all post ev ns tally w).1.sent ≡ accepted w.posts ns ++ w.sent
  unfolding post_all
  post_all-sent [] tally w = refl
  post_all-sent (n ∷ ns) tally w =
      let step : Tally × Wire = posted n ev (post w.posts n ev) tally w in
      let (sent, posts) = posted-sent n (post w.posts n ev) tally w in
      post_all-sent ns step.0 step.1
      ∙ rw (sent, posts) (sym (append_assoc (accepted (suc w.posts) ns) _ w.sent))

-- What the result of a dispatch says of the posts. It is an error only where nothing was sent;
-- without an error some target has accepted the event, or there is none.
abbrev pub IsOutcome : List Target → Wire → Option Str × Wire → Type 0
IsOutcome ns w (some e, w') = w'.sent ≡ w.sent
IsOutcome ns w (none, w') = (ns ≡ []) ⊎ (length w.sent < length w'.sent)

append-nil : {A : Type 0} (xs ys zs : List A) → zs ≡ xs ++ ys → length xs ≡ 0 → zs ≡ ys
append-nil [] ys zs e h = e
append-nil (x ∷ xs) ys zs e h = ground arith

IsOutcome-run :
    (ns : List Target) (w : Wire) (k : ℕ) (t : Tally) (w' : Wire)
    → IsRun (0, none) w k (t, w')
    → (ns ≡ []) ⊎ (heard t ≡ true)
    → IsOutcome ns w (verdict t, w')
unfolding verdict
IsOutcome-run ns w k (suc d, l) w' (p, xs, s, c) h =
    inr (rw s (omega (arith, length-append xs w.sent)))
IsOutcome-run ns w k (zero, some e) w' (p, xs, s, c) h =
    append-nil xs w.sent w'.sent s (omega arith)
IsOutcome-run ns w k (zero, none) w' r (inl h) = inl h
IsOutcome-run ns w k (zero, none) w' r (inr h) = cc

module _ (post : Post) (ev : Event) where
  all-heard :
      (ns : List Target) (w : Wire) → (ns ≡ []) ⊎ (heard (post_all post ev ns (0, none) w).0 ≡ true)
  unfolding post_all
  all-heard [] w = inl refl
  all-heard (n ∷ ns) w =
      inr (post_all-heard post ev ns _ _ (posted-heard n ev (post w.posts n ev) (0, none) w))

  -- A dispatch posts the event to every target once, in order and whichever of the posts fail: as
  -- many posts are made as there are targets, and what is sent is the event to those of the targets
  -- that accept it. It returns an error only if no target has accepted the event, and returns none
  -- only if some target has, or if there is no target.
  pub dispatch-IsOutcome :
      (ns : List Target) (w : Wire)
      → IsOutcome ns w (dispatch post ns ev w)
        × ((dispatch post ns ev w).1.posts ≡ w.posts + length ns)
        × ((dispatch post ns ev w).1.sent ≡ accepted post ev w.posts ns ++ w.sent)
  unfolding dispatch
  dispatch-IsOutcome ns w =
      let run = post_all-IsRun post ev ns (0, none) w in
      (
        IsOutcome-run ns w (length ns) _ _ run (all-heard ns w),
        run.0,
        post_all-sent post ev ns (0, none) w,
      )

-- A feed has a target by `HasTarget` exactly if its dispatcher is not empty.
pub targets-has_target : (f : FeedNotifications) → is_empty (targets f) ≡ not (has_target f)
unfolding targets has_target
targets-has_target f = ground arith

posted-none :
    (n : Target) (ev : Event) (r : Option Str) (tally : Tally) (w : Wire)
    → r ≡ none
    → tally.1 ≡ none
    → (posted n ev r tally w).0.1 ≡ none
unfolding posted
posted-none n ev none (d, l) w h k = k
posted-none n ev (some e) (d, l) w h k = cc

verdict-none : (t : Tally) → t.1 ≡ none → verdict t ≡ none
unfolding verdict
verdict-none (zero, l) h = h
verdict-none (suc d, l) h = refl

module _ (post : Post) (ev : Event) (accepts : (k : ℕ) (n : Target) → post k n ev ≡ none) where
  post_all-none :
      (ns : List Target) (tally : Tally) (w : Wire)
      → tally.1 ≡ none
      → (post_all post ev ns tally w).0.1 ≡ none
  unfolding post_all
  post_all-none [] tally w h = h
  post_all-none (n ∷ ns) tally w h =
      post_all-none ns _ _ (posted-none n ev _ tally w (accepts w.posts n) h)

  -- Posts that do not fail make no error.
  pub dispatch-none : (ns : List Target) (w : Wire) → (dispatch post ns ev w).0 ≡ none
  unfolding dispatch
  dispatch-none ns w = verdict-none _ (post_all-none ns (0, none) w refl)
