-- ===== src/DavSync/Persist.antt =====
-- internal/davsync/runner.go: what a run leaves in the job's row.
use tidy_dav.Prelude.{
  All, ltb, ◌||◌, ◌&&◌, ℕ, zero, suc, if◌then◌else◌, ◌∷◌, true, Bool, ◌≡◌, refl, Str, str, false,
  Option, none, some, [], is_empty, list_eq, nat_eq,
}
use tidy_dav.Prelude.Dict
use tidy_dav.Prelude.Clock.{Time}
use tidy_dav.Prelude.Result.{ok, err}
use tidy_dav.Dav.Types.{ItemState, Items, Options}
use tidy_dav.Dav.Href.{rune_tail}
use tidy_dav.Dav.Bidi.{Outcome}
use tidy_dav.Dav.Sync.{sync}
use tidy_dav.DavSync.{Env, SyncJob, Status, config_error, Remote, build_sync}
use tidy_dav.DavSync.Run.{
  finish, load, run_plan, run_locked, run_status, update_run, raw_state, state_or_empty,
}

-- Whether a text is valid UTF-8; `skip` bytes of the current rune are left.
abbrev pub is_utf8 : ℕ → Str → Bool
is_utf8 skip [] = true
is_utf8 (suc skip) (c ∷ s) = is_utf8 skip s
is_utf8 zero (c ∷ s) =
    let tail : ℕ = if ltb c 0x80 then 0 else rune_tail c s in
    (ltb c 0x80 || ltb 0 tail) && is_utf8 tail s

-- All texts of an entry are valid UTF-8: another one is not written to JSON as it is.
abbrev pub IsText : Str × ItemState → Type 0
IsText (uid, i) =
    (is_utf8 0 uid ≡ true)
    × (is_utf8 0 i.uid ≡ true)
    × (is_utf8 0 i.src_href ≡ true)
    × (is_utf8 0 i.src_etag ≡ true)
    × (is_utf8 0 i.src_hash ≡ true)
    × (is_utf8 0 i.dst_href ≡ true)
    × (is_utf8 0 i.dst_etag ≡ true)
    × (is_utf8 0 i.dst_hash ≡ true)

-- What is documented of the JSON of a map with such texts: it is read back as a map with the same
-- entries, in whatever order, and its text is not empty.
pub record IsJson (env : Env) : Type 0 where
  pub back :
      (items : Items) (s : Str)
      → All IsText items
      → env.encode items ≡ some s
      → (items' : Items) × (env.decode s ≡ some items')
        × ((uid : Str) → Dict.lookup uid items' ≡ Dict.lookup uid items)
  pub text : (items : Items) (s : Str) → env.encode items ≡ some s → is_empty s ≡ false

-- The state that is written is what the next run loads.
load-finish :
    (env : Env) (db : Option Str) (now : Time) (json : IsJson env) (job : SyncJob) (items : Items)
    (status : Status) (s uid : Str)
    → db ≡ none
    → All IsText items
    → env.encode items ≡ some s
    → Dict.lookup uid (load env (finish env db now job (some items) status)) ≡ Dict.lookup uid items
unfolding load finish raw_state update_run state_or_empty
load-finish env db now json job items status s uid writable texts written =
    let filled : is_empty s ≡ false = json.text items s written in
    let (items', read, same) = json.back items s texts written in
    rw (writable, written, filled, filled, read) (same uid)

module _ (env : Env) (db : Option Str) (now : Time) where
  -- What a run leaves that is given up with an error: no state, and a status that says why.
  abbrev IsLost : Str → SyncJob → Type 0
  IsLost e left =
      (left.state ≡ str "{}") × (left.last_status ≡ config_error e) × (load env left ≡ [])

  run_plan-IsLost :
      (job : SyncJob) (e : Str)
      → db ≡ none
      → env.decode (str "{}") ≡ some []
      → IsLost e (run_plan env db now job (err e))
  unfolding run_plan load finish raw_state update_run state_or_empty
  run_plan-IsLost job e writable empty =
      (rw writable refl, rw writable refl, rw (writable, empty) refl)

  -- A run that cannot be set up, since the job has an invalid setting or a client refuses its URL,
  -- loses the state: if its row can be written, then whatever state the row had, afterwards it has
  -- the text `{}` and the error as its status, and the next run begins without items if that text
  -- reads as none.
  pub run_locked-loses :
      (job : SyncJob) (e : Str)
      → db ≡ none
      → build_sync env job ≡ err e
      → env.decode (str "{}") ≡ some []
      → ((run_locked env db now job).state ≡ str "{}")
        × ((run_locked env db now job).last_status ≡ config_error e)
        × (load env (run_locked env db now job) ≡ [])
  unfolding run_locked
  run_locked-loses job e writable broken empty = rw broken (run_plan-IsLost job e writable empty)

run_plan-load :
    (env : Env) (now : Time) (json : IsJson env) (job : SyncJob) (a b : Remote) (opts : Options)
    (s uid : Str)
    → All IsText
        (sync env.dav a.collection b.collection opts (load env job) a.server b.server).items
    → env.encode
        (sync env.dav a.collection b.collection opts (load env job) a.server b.server).items
      ≡ some s
    → Dict.lookup uid (load env (run_plan env none now job (ok (a, b, opts))))
      ≡ Dict.lookup uid
          (sync env.dav a.collection b.collection opts (load env job) a.server b.server).items
unfolding run_plan
run_plan-load env now json job a b opts s uid texts written =
    let r : Outcome a.collection.State b.collection.State =
      sync env.dav a.collection b.collection opts (load env job) a.server b.server in
    load-finish env none now json job r.items (run_status r.res r.error) s uid refl texts written

-- A run that is set up and whose row can be written hands its state to the next run, if the
-- texts in it are valid UTF-8: what that run loads has, under every UID, the entry that `Sync` has
-- left, also where `Sync` ended in an error.
pub run_locked-load :
    (env : Env) (now : Time) (json : IsJson env) (job : SyncJob) (a b : Remote) (opts : Options)
    (s uid : Str)
    → build_sync env job ≡ ok (a, b, opts)
    → All IsText
        (sync env.dav a.collection b.collection opts (load env job) a.server b.server).items
    → env.encode
        (sync env.dav a.collection b.collection opts (load env job) a.server b.server).items
      ≡ some s
    → Dict.lookup uid (load env (run_locked env none now job))
      ≡ Dict.lookup uid
          (sync env.dav a.collection b.collection opts (load env job) a.server b.server).items
unfolding run_locked
run_locked-load env now json job a b opts s uid plan texts written =
    rw plan (run_plan-load env now json job a b opts s uid texts written)
