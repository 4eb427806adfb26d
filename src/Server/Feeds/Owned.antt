-- ===== src/Server/Feeds/Owned.antt =====
-- internal/server/feeds.go: a user's requests leave the feeds of all other users alone.
use tidy_dav.Prelude.{
  ℕ, ◌≡◌, refl, ap, ◌∙◌, Str, str, false, Option, none, some, List, [], ◌∷◌, list_eq, nat_eq, ◌==◌,
  Bool-cases, inl, inr, eq_of_==,
}
use tidy_dav.Prelude.Result.{Result, ok, err}
use tidy_dav.Store.Types
use tidy_dav.Store.Types.{not_found, failed}
use tidy_dav.Store.Users.{User}
use tidy_dav.Store.Feeds
use tidy_dav.Store.Feeds.{Feed, FeedSource, feed_by_id, feeds_by_user}
use tidy_dav.Store.Feeds.Owned.{rows_of, create_feed-rows_of, update_feed-rows_of}
use tidy_dav.Server.{Env, World, failure, clock, tick, draw, decode_json, audit}
use tidy_dav.Server.Feeds.{FeedRequest, to_feed_response, source_responses}
use tidy_dav.Server.Feeds.Handlers.{
  Reply, respond, set_feeds, owned_result, owned_feed, list_result, listed, saved, create_with,
  new_feed, create_with_secret, create_with_id, create_with_auth, create_valid, update_with,
  changed_feed, update_with_auth, update_valid, rotate_with, deleted,
}

module _ (env : Env) (v : Str) where
  -- The rows of `v` are those of before.
  abbrev pub Keeps : World → Reply → Type 0
  Keeps w q = rows_of v q.1.feeds ≡ rows_of v w.feeds

  source_responses-feeds :
      (ss : List FeedSource) (w : World) → (source_responses env ss w).1.feeds ≡ w.feeds
  unfolding source_responses
  source_responses-feeds [] w = refl
  source_responses-feeds (s ∷ ss) w = source_responses-feeds ss (tick w)

  to_feed_response-feeds : (f : Feed) (w : World) → (to_feed_response env f w).1.feeds ≡ w.feeds
  unfolding to_feed_response
  to_feed_response-feeds f w = source_responses-feeds f.sources w

  pub respond-Keeps : (status : ℕ) (f : Feed) (w : World) → Keeps w (respond env status f w)
  respond-Keeps status f w = ap (rows_of v) (to_feed_response-feeds f w)

  audit-feeds :
      (u : User) (action target detail : Str) (w : World)
      → (audit env u action target detail w).feeds ≡ w.feeds
  unfolding audit
  audit-feeds u action target detail w = refl

  saved-Keeps :
      (status : ℕ) (action : Str) (u : User) (q : Result Types.Error (Unit {0}) × Feed × List Feed)
      (w : World)
      → rows_of v q.2 ≡ rows_of v w.feeds
      → Keeps w (saved env status action u q w)
  unfolding saved
  saved-Keeps status action u (err e, f, rows) w h = h
  saved-Keeps status action u (ok x, f, rows) w h =
      ap (rows_of v) (
        to_feed_response-feeds f (audit env u action f.id f.name (set_feeds env rows w))
        ∙ audit-feeds u action f.id f.name (set_feeds env rows w))
      ∙ h

  list_result-feeds : (fs : List Feed) (w : World) → (list_result env fs w).1.feeds ≡ w.feeds
  list_result-feeds [] w = refl
  list_result-feeds (f ∷ fs) w =
      list_result-feeds fs (to_feed_response env f w).1 ∙ to_feed_response-feeds f w

  pub listed-Keeps : (r : Result Types.Error (List Feed)) (w : World) → Keeps w (listed env r w)
  listed-Keeps (err e) w = refl
  listed-Keeps (ok fs) w = ap (rows_of v) (list_result-feeds fs w)

  create_with-Keeps :
      (u : User) (f : Feed) (n : Result Str Str) (w : World)
      → (f.user_id == v) ≡ false
      → Keeps w (create_with env u f n w)
  unfolding create_with
  create_with-Keeps u f (err e) w h = refl
  create_with-Keeps u f (ok n) w h =
      let f' = record f { notifications = n } in
      saved-Keeps 201 (str "feed.create") u
        (Feeds.create_feed (failure env w) (clock env w) f' w.feeds) w
        (create_feed-rows_of v (failure env w) (clock env w) f' w.feeds h)

  create_with_secret-Keeps :
      (u : User) (req : FeedRequest) (auth : Str × Str) (id : Str) (secret : Result Str Str)
      (w : World)
      → (u.id == v) ≡ false
      → Keeps w (create_with_secret env u req auth id secret w)
  unfolding create_with_secret new_feed
  create_with_secret-Keeps u req auth id (err e) w h = refl
  create_with_secret-Keeps u req auth id (ok secret) w h =
      create_with-Keeps u (new_feed env u req auth id secret) _ w h

  create_with_id-Keeps :
      (u : User) (req : FeedRequest) (auth : Str × Str) (id : Result Str Str) (w : World)
      → (u.id == v) ≡ false
      → Keeps w (create_with_id env u req auth id w)
  unfolding create_with_id
  create_with_id-Keeps u req auth (err e) w h = refl
  create_with_id-Keeps u req auth (ok id) w h = create_with_secret-Keeps u req auth id _ (draw w) h

  create_with_auth-Keeps :
      (u : User) (req : FeedRequest) (auth : Result Str (Str × Str)) (w : World)
      → (u.id == v) ≡ false
      → Keeps w (create_with_auth env u req auth w)
  unfolding create_with_auth
  create_with_auth-Keeps u req (err e) w h = refl
  create_with_auth-Keeps u req (ok auth) w h = create_with_id-Keeps u req auth _ (draw w) h

  pub create_valid-Keeps :
      (u : User) (message : Option Str) (req : FeedRequest) (w : World)
      → (u.id == v) ≡ false
      → Keeps w (create_valid env u message req w)
  unfolding create_valid
  create_valid-Keeps u (some message) req w h = refl
  create_valid-Keeps u none req w h = create_with_auth-Keeps u req _ w h

  update_with-Keeps :
      (u : User) (f : Feed) (n : Result Str Str) (w : World)
      → (f.user_id == v) ≡ false
      → Keeps w (update_with env u f n w)
  unfolding update_with
  update_with-Keeps u f (err e) w h = refl
  update_with-Keeps u f (ok n) w h =
      let f' = record f { notifications = n } in
      saved-Keeps 200 (str "feed.update") u
        (Feeds.update_feed (failure env w) (clock env w) f' w.feeds) w
        (update_feed-rows_of v (failure env w) (clock env w) f' w.feeds h)

  update_with_auth-Keeps :
      (u : User) (req : FeedRequest) (f : Feed) (auth : Result Str (Str × Str)) (w : World)
      → (f.user_id == v) ≡ false
      → Keeps w (update_with_auth env u req f auth w)
  unfolding update_with_auth changed_feed
  update_with_auth-Keeps u req f (err e) w h = refl
  update_with_auth-Keeps u req f (ok auth) w h =
      update_with-Keeps u (changed_feed env req auth f) _ w h

  pub update_valid-Keeps :
      (u : User) (f : Feed) (message : Option Str) (req : FeedRequest) (w : World)
      → (f.user_id == v) ≡ false
      → Keeps w (update_valid env u f message req w)
  unfolding update_valid
  update_valid-Keeps u f (some message) req w h = refl
  update_valid-Keeps u f none req w h = update_with_auth-Keeps u req f _ w h

  pub rotate_with-Keeps :
      (u : User) (f : Feed) (secret : Result Str Str) (w : World)
      → (f.user_id == v) ≡ false
      → Keeps w (rotate_with env u f secret w)
  unfolding rotate_with
  rotate_with-Keeps u f (err e) w h = refl
  rotate_with-Keeps u f (ok secret) w h =
      let f' = record f { secret = secret } in
      saved-Keeps 200 (str "feed.rotate-secret") u
        (Feeds.update_feed (failure env w) (clock env w) f' w.feeds) w
        (update_feed-rows_of v (failure env w) (clock env w) f' w.feeds h)

  pub deleted-Keeps :
      (u : User) (id : Str) (q : Result Types.Error (Unit {0}) × List Feed) (w : World)
      → rows_of v q.1 ≡ rows_of v w.feeds
      → Keeps w (deleted env u id q w)
  unfolding deleted audit
  deleted-Keeps u id (err not_found, rows) w h = h
  deleted-Keeps u id (err (failed c e), rows) w h = h
  deleted-Keeps u id (ok x, rows) w h = h

  owned_result-Keeps :
      (u : User) (r : Result Types.Error Feed) (handler : Feed → World → Reply) (w : World)
      → (u.id == v) ≡ false
      → ((f : Feed) → (f.user_id == v) ≡ false → Keeps w (handler f w))
      → Keeps w (owned_result env u r handler w)
  owned_result-Keeps u (err not_found) handler w h k = refl
  owned_result-Keeps u (err (failed c e)) handler w h k = refl
  owned_result-Keeps u (ok f) handler w h k = elim (Bool-cases (f.user_id == u.id)) [
    | inr foreign ↦ rw foreign refl
    | inl own ↦
        let same : f.user_id ≡ u.id = eq_of_== f.user_id u.id own in rw own (k f (rw same h))
  ]

  pub owned_feed-Keeps :
      (u : User) (id : Str) (handler : Feed → World → Reply) (w : World)
      → (u.id == v) ≡ false
      → ((f : Feed) → (f.user_id == v) ≡ false → Keeps (tick w) (handler f (tick w)))
      → Keeps w (owned_feed env u id handler w)
  unfolding owned_feed
  owned_feed-Keeps u id handler w h k = owned_result-Keeps u _ handler (tick w) h k

  pub decode_json-Keeps :
      {B : Type 0} (body : Option B) (handler : B → World → Reply) (w : World)
      → ((b : B) → Keeps w (handler b w))
      → Keeps w (decode_json body handler w)
  unfolding decode_json
  decode_json-Keeps none handler w k = refl
  decode_json-Keeps (some b) handler w k = k b
