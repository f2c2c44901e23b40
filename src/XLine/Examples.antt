-- ===== src/XLine/Examples.antt =====
-- Bans at concrete masks and durations.
use mathlib.Core.List.{Memᴰ}
use echoi_rcd.Prelude.{
  true, false, ◌&&◌, ◌||◌, [], ◌∷◌, some, Text, codes, if◌then◌else◌, ◌≡◌, refl, arith, retain,
  is_some, text_eq, lines, show_nat, ◌↔◌, ◌==◌, ◌+◌, ltb,
}
use echoi_rcd.Server.State.{Server}
use echoi_rcd.XLine.Kinds.{XKind, XLine, kind_eq, tag}
use echoi_rcd.XLine.Duration.{parse_duration, short_duration, parse_duration-short_duration}
use echoi_rcd.XLine.Db.{parse_db_line, write_db_line, parse_db_line-write_db_line}
use echoi_rcd.XLine.Match.{is_active, xmatch, user_host, matched_xline, xline_active}
use echoi_rcd.XLine.Table.{add_xline_at, purge_xlines, load_xlines_text, saved_text}
use echoi_rcd.XLine.Unique.{Unique}
use echoi_rcd.XLine.Refused.{Exempts, Bans, matched_xline_iff}
use echoi_rcd.XLine.Effects.{add_xline_at-Unique, xline_active-add_xline_at, xmatch-purge_xlines}
use echoi_rcd.XLine.Reload.{load_xlines_text-saved_text}

abbrev same_text : Text → Text
same_text s = s

abbrev bad_host : XLine
bad_host = record {
  kind = XKind.gline;
  mask = codes "*@bad.example";
  reason = codes "open proxy";
  setter = codes "op";
  expires = 500;
  set_at = 100;
}

abbrev ended : XLine
ended = record bad_host { kind = XKind.kline; expires = 150 }

abbrev server : Server
server = record {
  name = codes "hub.example";
  sid = codes "42X";
  users = [];
  nick_index = [];
  channels = [];
  uuid_local = [];
  whowas = [];
  xlines = bad_host ∷ ended ∷ [];
  mode_sudo = false;
  raw_config = [];
  accepted_nicks = [];
  watch_by = [];
  monitor_by = [];
  redis_active = false;
  clock = 200;
  out = [];
}

parse_duration-short_duration_example : parse_duration (short_duration 5400) ≡ some 5400
parse_duration-short_duration_example = parse_duration-short_duration 5400 (omega arith)

parse_db_line-write_db_line_example : parse_db_line (write_db_line bad_host) ≡ some bad_host
parse_db_line-write_db_line_example =
    parse_db_line-write_db_line bad_host
      (ground arith, (ground arith, (ground arith, (omega arith, omega arith))))

saved_text_run :
    saved_text (bad_host ∷ ended ∷ [])
    ≡ codes "G *@bad.example 500 100 op open proxy\nK *@bad.example 150 100 op open proxy\n"
unfolding saved_text write_db_line tag show_nat
saved_text_run = refl

lines_run : lines (codes "a\r\n\nb\r") ≡ codes "a" ∷ [] ∷ codes "b\r" ∷ []
unfolding lines
lines_run = refl

load_xlines_text-saved_text_example :
    load_xlines_text (some (saved_text (bad_host ∷ ended ∷ []))) 200 []
    ≡ retain (is_active 200) (bad_host ∷ ended ∷ [])
load_xlines_text-saved_text_example =
    load_xlines_text-saved_text 200 (bad_host ∷ ended ∷ [])
      (
        (ground arith, (ground arith, (ground arith, (omega arith, omega arith)))),
        ((ground arith, (ground arith, (ground arith, (omega arith, omega arith)))), tt),
      )
      (
        (ground arith, (ground arith, (ground arith, refl))),
        ((ground arith, (ground arith, (ground arith, refl))), tt),
      )

-- A Z-line matches the address, and no E-line an address.
abbrev by_address : Server
by_address = record server {
  xlines =
      record bad_host { kind = XKind.zline; mask = codes "192.0.2.*" }
      ∷ record bad_host { kind = XKind.eline; mask = codes "192.0.2.1" }
      ∷ [];
}

matched_xline_iff_example :
    (is_some
        (matched_xline same_text by_address (codes "u") (codes "x.example") (codes "192.0.2.1"))
      ≡ true)
    ↔ (((e : XLine)
          → Memᴰ e by_address.xlines
          → ¬ Exempts same_text 200 (user_host (codes "u") (codes "x.example")) e)
        × ((x : XLine) × (Memᴰ x by_address.xlines
              × Bans same_text 200
                  (user_host (codes "u") (codes "x.example"))
                  (codes "192.0.2.1")
                  x)))
matched_xline_iff_example =
    matched_xline_iff same_text by_address (codes "u") (codes "x.example") (codes "192.0.2.1")

add_xline_at-Unique_example :
    Unique
      (add_xline_at same_text same_text XKind.gline
        (codes "*@bad.example")
        60
        (codes "op")
        (codes "spam")
        200
        server).xlines
unfolding text_eq tag
add_xline_at-Unique_example =
    add_xline_at-Unique same_text same_text XKind.gline (codes "*@bad.example") 60 (codes "op")
      (codes "spam") 200 server (refl, (refl, tt))

xline_active-add_xline_at_example :
    xline_active
      (add_xline_at same_text same_text XKind.gline
        (codes "*@bad.example")
        60
        (codes "op")
        (codes "spam")
        200
        server)
      XKind.gline
      (codes "*@bad.example")
    ≡ (if kind_eq XKind.gline XKind.gline && text_eq (codes "*@bad.example") (codes "*@bad.example")
        then 60 == 0 || ltb 200 (200 + 60)
        else xline_active server XKind.gline (codes "*@bad.example"))
xline_active-add_xline_at_example =
    xline_active-add_xline_at same_text same_text XKind.gline (codes "*@bad.example") 60
      (codes "op") (codes "spam") 200 server XKind.gline (codes "*@bad.example") (omega arith)

xmatch-purge_xlines_example :
    xmatch same_text
      (purge_xlines same_text server)
      XKind.kline
      (codes "u@bad.example")
      (codes "1.2.3.4")
    ≡ xmatch same_text server XKind.kline (codes "u@bad.example") (codes "1.2.3.4")
xmatch-purge_xlines_example =
    xmatch-purge_xlines same_text same_text server XKind.kline (codes "u@bad.example")
      (codes "1.2.3.4")
