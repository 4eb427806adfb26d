-- ===== src/Dav/Bidi/Side.antt =====
-- internal/dav/sync_bidi.go: what each side holds, by UID (`resolveSide`), and the bodies.
use tidy_dav.Prelude.{
  Str, str, Bool, true, false, not, Option, none, some, List, [], ◌∷◌, is_empty, ◌==◌, list_eq,
  nat_eq, if◌then◌else◌,
}
use tidy_dav.Prelude.Dict
use tidy_dav.Prelude.Dict.{Dict}
use tidy_dav.Prelude.Result.{Result, ok, err}
use tidy_dav.Dav.Types.{Error, wrap, ItemMeta, Item, Collection, Items, Options, Env}
use tidy_dav.Dav.Extract.{in_window}

pub record HrefState : Type 0 where
  pub etag : Str
  pub uid : Str

-- `data` is nil, `none`, for an item whose body was not fetched.
pub record SideItem : Type 0 where
  pub href : Str
  pub etag : Str
  pub uid : Str
  pub changed : Bool
  pub body : Option Str

-- The loop over the state that fills `aKnown`.
unfoldable pub known_src : Items → List Str → Dict Str HrefState → Dict Str HrefState
known_src items [] acc = acc
known_src items (uid ∷ uids) acc = known_src items uids (elim (Dict.lookup uid items) [
  | none ↦ acc
  | some st ↦
      if is_empty st.src_href
      then acc
      else Dict.insert st.src_href (record { etag = st.src_etag; uid = st.uid }) acc
])

-- The same loop, which fills `bKnown`.
unfoldable pub known_dst : Items → List Str → Dict Str HrefState → Dict Str HrefState
known_dst items [] acc = acc
known_dst items (uid ∷ uids) acc = known_dst items uids (elim (Dict.lookup uid items) [
  | none ↦ acc
  | some st ↦
      if is_empty st.dst_href
      then acc
      else Dict.insert st.dst_href (record { etag = st.dst_etag; uid = st.uid }) acc
])

-- The side as far as it is resolved, and the UIDs outside the window, which both sides share.
pub record Resolved : Type 0 where
  pub side : Dict Str SideItem
  pub filtered : List Str

module _ (env : Env) (C : Collection) (o : Options) (uid_of : Str → Str) (c : C.State) where
  unfoldable pub fetched_item : ItemMeta → Item → Resolved → Resolved
  fetched_item meta item r =
      let own = uid_of item.body in
      let uid = if is_empty own then meta.href else own in
      if not (in_window env o item.body)
      then record r { filtered = uid ∷ r.filtered }
      else record r {
        side =
            Dict.insert uid
              (record {
                href = meta.href;
                etag = meta.etag;
                uid = uid;
                changed = true;
                body = some item.body;
              })
              r.side;
      }

  unfoldable pub fetch_side : ItemMeta → Resolved → Result Error Resolved
  unfolding fetched_item
  fetch_side meta r = elim (C.get c meta.href) [
    | err e ↦ err (wrap (str "get") e)
    | ok item ↦ ok (fetched_item meta item r)
  ]

  unfoldable pub unchanged : ItemMeta → HrefState → Resolved → Resolved
  unchanged meta ks r = record r {
    side =
        Dict.insert ks.uid
          (record {
            href = meta.href;
            etag = meta.etag;
            uid = ks.uid;
            changed = false;
            body = none;
          })
          r.side;
  }

  unfoldable pub resolve_item : Dict Str HrefState → ItemMeta → Resolved → Result Error Resolved
  unfolding fetch_side unchanged
  resolve_item known meta r = elim (Dict.lookup meta.href known) [
    | none ↦ fetch_side meta r
    | some ks ↦ if ks.etag == meta.etag then ok (unchanged meta ks r) else fetch_side meta r
  ]

  unfoldable pub resolve_side :
      Dict Str HrefState → List ItemMeta → Resolved → Result Error Resolved
  unfolding resolve_item
  resolve_side known [] r = ok r
  resolve_side known (meta ∷ metas) r = elim (resolve_item known meta r) [
    | err e ↦ err e
    | ok r' ↦ resolve_side known metas r'
  ]

module _ (C : Collection) (c : C.State) where
  unfoldable pub data_of : SideItem → Result Error Str
  data_of si = elim si.body [
    | some body ↦ ok body
    | none ↦ elim (C.get c si.href) [ err e ↦ err (wrap (str "get") e) | ok item ↦ ok item.body ]
  ]
