-- ===== src/Dav/Mirror.antt =====
-- internal/dav/mirror.go: the check of a destination copy, and the write with its read-back.
use tidy_dav.Prelude.{
  Str, str, ◌&&◌, not, none, some, is_empty, ◌==◌, list_eq, nat_eq, if◌then◌else◌,
}
use tidy_dav.Prelude.Result.{Result, ok, err}
use tidy_dav.Dav.Types.{Error, wrap, ItemMeta, Item, Collection, ItemState, Env}
use tidy_dav.Dav.Href.{Index, body_hash, lookup_meta}

-- `dstStatus`. The fourth verdict, `dstUnknown`, comes with an error: here it is that error.
pub data Status : Type 0 where
  dst_ok dst_missing dst_drifted : Status

-- What `inspectDst` returns beside the error.
pub record Verdict : Type 0 where
  pub status : Status
  pub etag : Str
  pub hash : Str

pub record Stored : Type 0 where
  pub href : Str
  pub etag : Str
  pub hash : Str

module _ (env : Env) (D : Collection) where
  -- The second half of `inspectDst`, where only the body can tell.
  unfoldable pub inspect_body : D.State → ItemState → ItemMeta → Result Error Verdict
  inspect_body dst st meta = elim (D.get dst meta.href) [
    | err e ↦ err (wrap (str "inspect destination") e)
    | ok item ↦
        let etag = if is_empty meta.etag then item.etag else meta.etag in
        let hash = body_hash env item.body in
        if is_empty st.dst_hash
        then ok (record { status = dst_ok; etag = etag; hash = hash })
        else if hash == st.dst_hash
        then ok (record { status = dst_ok; etag = etag; hash = hash })
        else ok (record { status = dst_drifted; etag = etag; hash = hash })
  ]

  unfoldable pub inspect_listed : D.State → ItemState → ItemMeta → Result Error Verdict
  inspect_listed dst st meta =
      if not (is_empty meta.etag) && (meta.etag == st.dst_etag && not (is_empty st.dst_hash))
      then ok (record { status = dst_ok; etag = meta.etag; hash = st.dst_hash })
      else inspect_body dst st meta

  unfoldable pub inspect_dst : D.State → ItemState → Index → Result Error Verdict
  unfolding inspect_listed
  inspect_dst dst st idx =
      if is_empty st.dst_href
      then ok (record { status = dst_missing; etag = str ""; hash = str "" })
      else elim (lookup_meta env idx st.dst_href) [
        | none ↦ ok (record { status = dst_missing; etag = str ""; hash = str "" })
        | some meta ↦ inspect_listed dst st meta
      ]

  -- The read-back: a failed one keeps what was sent.
  unfoldable pub read_back : D.State → Str → Item → Str → Stored
  read_back dst href stored body = elim (D.get dst href) [
    | err _ ↦ record { href = href; etag = stored.etag; hash = body_hash env body }
    | ok back ↦ record {
      href = href;
      etag = if is_empty back.etag then stored.etag else back.etag;
      hash = body_hash env back.body;
    }
  ]

  unfoldable pub put_mirror : D.State → Str → Str → Str → Result Error Stored × D.State
  unfolding read_back
  put_mirror dst href etag body =
      let (r, dst') = D.put dst (record { href = href; etag = etag; body = body }) in
      elim r [
        | err e ↦ (err e, dst')
        | ok stored ↦ (
          ok (read_back dst' (if is_empty stored.href then href else stored.href) stored body),
          dst',
        )
      ]
