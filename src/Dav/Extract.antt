-- ===== src/Dav/Extract.antt =====
-- internal/dav/extract.go: the date window.
use tidy_dav.Prelude.{
  Str, Bool, true, false, ◌&&◌, ◌||◌, not, none, some, List, [], ◌∷◌, ltb, if◌then◌else◌,
}
use tidy_dav.Dav.Types.{Time, is_zero, Options, has_window, Env}

-- The loop of `CalendarStart` over the components whose DTSTART parses.
unfoldable pub earliest_start : Time → List Time → Time
earliest_start earliest [] = earliest
earliest_start earliest (t ∷ ts) =
    earliest_start (if not (is_zero t) && (is_zero earliest || ltb t earliest) then t else earliest)
      ts

unfoldable pub calendar_start : Env → Str → Time
unfolding earliest_start
calendar_start env body = elim (env.starts body) [ none ↦ 0 | some ts ↦ earliest_start 0 ts ]

unfoldable pub event_in_window : Env → Str → Time → Time → Bool
event_in_window env body start end =
    if is_zero start && is_zero end
    then true
    else let t = calendar_start env body in
      if is_zero t
      then true
      else if not (is_zero start) && ltb t start
      then false
      else if not (is_zero end) && ltb end t
      then false
      else true

unfoldable pub in_window : Env → Options → Str → Bool
unfolding event_in_window has_window
in_window env o body =
    if not (has_window o) then true else event_in_window env body o.window_start o.window_end
