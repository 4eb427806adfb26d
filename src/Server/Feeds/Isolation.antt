-- ===== src/Server/Feeds/Isolation.antt =====
-- internal/server/feeds.go: the requests of the others leave a user's feeds as they are.
use tidy_dav.Prelude.{
  ℕ, ◌≡◌, refl, ◌∙◌, ap, Bool-cases, inl, inr, is_empty, Str, Bool, true, false, Option, none, some,
  List, [], ◌∷◌, list_eq, nat_eq, ◌==◌, All,
}
use tidy_dav.Prelude.Result.{Result, ok, err}
use tidy_dav.Store.Users.{User}
use tidy_dav.Store.Feeds
use tidy_dav.Store.Feeds.{Feed, feeds_by_user}
use tidy_dav.Store.Feeds.Owned.{rows_of, delete_feed-rows_of}
use tidy_dav.Store.FeedCache.{Rows}
use tidy_dav.Feed.{EventSummary}
use tidy_dav.Server.{Env, World, failure, tick, draw, require_user, decode_json, is_http_url}
use tidy_dav.Server.Feeds.{FeedRequest, validate_feed_request, validate_rules}
use tidy_dav.Server.Feeds.Handlers.{
  Reply, respond, handle_list_feeds, handle_create_feed, handle_get_feed, handle_update_feed,
  handle_rotate_feed_secret, handle_delete_feed, create_valid, update_valid, rotate_with,
}
use tidy_dav.Server.Feeds.Preview.{
  SourceCheckRequest, saved_feed, previewed, preview_valid, preview_of, handle_preview_feed,
  handle_preview_saved_feed, check_password_of, stored_password, checked, check_valid,
  handle_check_source,
}
use tidy_dav.Server.Feeds.Owned.{
  Keeps, listed-Keeps, create_valid-Keeps, update_valid-Keeps, rotate_with-Keeps, deleted-Keeps,
  owned_feed-Keeps, decode_json-Keeps, respond-Keeps,
}

-- The requests of the API of feeds.
pub data Request : Type 0 where
  list : Request
  create : Option FeedRequest → Request
  get : Str → Request
  update : Str → Option FeedRequest → Request
  rotate : Str → Request
  delete : Str → Request
  preview_draft : Option FeedRequest → Request
  preview_saved : Str → Request
  check_source : Option SourceCheckRequest → Request

unfoldable pub handle : Env → Option User → Request → World → Reply
handle env user list w = handle_list_feeds env user w
handle env user (create body) w = handle_create_feed env user body w
handle env user (get id) w = handle_get_feed env user id w
handle env user (update id body) w = handle_update_feed env user id body w
handle env user (rotate id) w = handle_rotate_feed_secret env user id w
handle env user (delete id) w = handle_delete_feed env user id w
handle env user (preview_draft body) w = handle_preview_feed env user body w
handle env user (preview_saved id) w = handle_preview_saved_feed env user id w
handle env user (check_source body) w = handle_check_source env user body w

-- The requests one after the other, each with the user it is made by, if any.
unfoldable pub handle_all : Env → List (Option User × Request) → World → World
unfolding handle
handle_all env [] w = w
handle_all env ((user, req) ∷ rest) w = handle_all env rest (handle env user req w).1

abbrev pub IsOther : Str → Option User → Type 0
IsOther v none = Unit
IsOther v (some u) = (u.id == v) ≡ false

module _ (env : Env) (v : Str) where
  previewed-feeds :
      (r : Result Str (List EventSummary × List EventSummary) × Rows) (w : World)
      → (previewed env r w).1.feeds ≡ w.feeds
  previewed-feeds (err e, rows) w = refl
  previewed-feeds (ok (original, transformed), rows) w = refl

  saved_feed-feeds : (u : User) (id : Str) (w : World) → (saved_feed env u id w).1.feeds ≡ w.feeds
  unfolding saved_feed
  saved_feed-feeds u [] w = refl
  saved_feed-feeds u (c ∷ id) w = refl

  preview_valid-Keeps :
      (u : User) (req : FeedRequest) (message : Option Str) (w : World)
      → Keeps env v w (preview_valid env u req message w)
  unfolding preview_valid
  preview_valid-Keeps u req (some message) w = refl
  preview_valid-Keeps u req none w =
      let q = saved_feed env u req.id w in
      ap (rows_of v) (
        previewed-feeds (env.preview q.1.statements (preview_of env u req q.0) q.1.cache) q.1
        ∙ saved_feed-feeds u req.id w)

  stored_password-feeds :
      (url : Str) (q : Option Feed × World) → (stored_password env url q).1.feeds ≡ q.1.feeds
  stored_password-feeds url (f, w) = refl

  check_password_of-feeds :
      (u : User) (req : SourceCheckRequest) (w : World)
      → (check_password_of env u req w).1.feeds ≡ w.feeds
  unfolding check_password_of
  check_password_of-feeds u req w = elim (Bool-cases (is_empty req.password)) [
    | inl t ↦ rw t (
        stored_password-feeds (env.trim_space req.url) (saved_feed env u req.id w)
        ∙ saved_feed-feeds u req.id w)
    | inr f ↦ rw f refl
  ]

  checked-feeds : (q : Result Str ℕ × Rows) (w : World) → (checked env q w).1.feeds ≡ w.feeds
  checked-feeds (err e, rows) w = refl
  checked-feeds (ok n, rows) w = refl

  check_valid-Keeps :
      (u : User) (req : SourceCheckRequest) (valid : Bool) (w : World)
      → Keeps env v w (check_valid env u req valid w)
  check_valid-Keeps u req false w = refl
  check_valid-Keeps u req true w =
      let q = check_password_of env u req w in
      ap (rows_of v) (
        checked-feeds
          (env.check_source q.1.statements (env.trim_space req.url) req.username q.0 q.1.cache) q.1
        ∙ check_password_of-feeds u req w)

  handle-Keeps :
      (user : Option User) (req : Request) (w : World)
      → IsOther v user
      → Keeps env v w (handle env user req w)
  unfolding handle handle_list_feeds handle_create_feed handle_get_feed handle_update_feed
      handle_rotate_feed_secret handle_delete_feed handle_preview_feed handle_preview_saved_feed
      handle_check_source require_user
  handle-Keeps none list w h = refl
  handle-Keeps none (create body) w h = refl
  handle-Keeps none (get id) w h = refl
  handle-Keeps none (update id body) w h = refl
  handle-Keeps none (rotate id) w h = refl
  handle-Keeps none (delete id) w h = refl
  handle-Keeps none (preview_draft body) w h = refl
  handle-Keeps none (preview_saved id) w h = refl
  handle-Keeps none (check_source body) w h = refl
  handle-Keeps (some u) list w h =
      listed-Keeps env v (feeds_by_user (failure env w) u.id w.feeds) (tick w)
  handle-Keeps (some u) (create body) w h =
      decode_json-Keeps env v body (λ req. create_valid env u (validate_feed_request env req) req) w
        (λ req. create_valid-Keeps env v u _ req w h)
  handle-Keeps (some u) (get id) w h =
      owned_feed-Keeps env v u id (respond env 200) w h
        (λ f own. respond-Keeps env v 200 f (tick w))
  handle-Keeps (some u) (update id body) w h =
      owned_feed-Keeps env v u id
        (λ f. decode_json body (λ req. update_valid env u f (validate_feed_request env req) req)) w
        h
        (λ f own.
          decode_json-Keeps env v body _ (tick w)
            (λ req. update_valid-Keeps env v u f (validate_feed_request env req) req (tick w) own))
  handle-Keeps (some u) (rotate id) w h =
      owned_feed-Keeps env v u id (λ f w. rotate_with env u f (env.random_token w.drawn) (draw w)) w
        h (λ f own. rotate_with-Keeps env v u f (env.random_token w.drawn) (draw (tick w)) own)
  handle-Keeps (some u) (delete id) w h =
      deleted-Keeps env v u id (Feeds.delete_feed (failure env w) id u.id w.feeds) w
        (delete_feed-rows_of v (failure env w) id u.id w.feeds h)
  handle-Keeps (some u) (preview_draft body) w h =
      decode_json-Keeps env v body (λ req. preview_valid env u req (validate_rules env req.rules)) w
        (λ req. preview_valid-Keeps u req _ w)
  handle-Keeps (some u) (preview_saved id) w h =
      owned_feed-Keeps env v u id (λ f w. previewed env (env.preview w.statements f w.cache) w) w h
        (λ f own.
          ap (rows_of v) (previewed-feeds (env.preview (tick w).statements f w.cache) (tick w)))
  handle-Keeps (some u) (check_source body) w h =
      decode_json-Keeps env v body
        (λ req. check_valid env u req (is_http_url env (env.trim_space req.url))) w
        (λ req. check_valid-Keeps u req _ w)

-- Whatever requests to the API of feeds the other users make, or anyone without a session, and
-- whichever statements fail, the feeds of a user stay in the table as they are: none is changed, added
-- or deleted.
pub handle_all-rows_of :
    (env : Env) (v : Str) (reqs : List (Option User × Request)) (w : World)
    → All (λ r. IsOther v r.0) reqs
    → rows_of v (handle_all env reqs w).feeds ≡ rows_of v w.feeds
unfolding handle_all
handle_all-rows_of env v [] w h = refl
handle_all-rows_of env v ((user, req) ∷ reqs) w (h, hs) =
    handle_all-rows_of env v reqs (handle env user req w).1 hs ∙ handle-Keeps env v user req w h
