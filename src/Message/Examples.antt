-- ===== src/Message/Examples.antt =====
-- Runs of `parse` and `to_wire` at concrete lines.
use mathlib.Core.List.{cons-ne-nil}
use echoi_rcd.Prelude.{
  trim_start, split_once, text_eq, ◌≡◌, refl, false, [], ◌∷◌, ◌++◌, none, some, codes, arith, join,
  split,
}
use echoi_rcd.Message.{
  Message, parse, to_wire, no_tags, parse_tags, parse_source, parse_command, read_tags, read_params,
  write_params, read_tag,
}
use echoi_rcd.Message.RoundTrip.{
  core, IsWire, parse-to_wire, parse-to_wire-parse, to_wire_at_sign, parse_total,
}
use echoi_rcd.Message.Tags.{parse-tags}

-- `:nick!u@h PRIVMSG x :a b`
abbrev privmsg : Message
privmsg = record {
  source = some (codes "nick!u@h");
  command = codes "PRIVMSG";
  params = codes "x" ∷ codes "a b" ∷ [];
  ctags = [];
  label = none;
  batch = none;
  concat = false;
}

parse-privmsg : parse (codes "  :nick!u@h privmsg  x :a b") ≡ some privmsg
unfolding parse parse_tags parse_source parse_command read_params trim_start split_once
parse-privmsg = refl

to_wire-privmsg : to_wire privmsg ≡ codes ":nick!u@h PRIVMSG x :a b"
unfolding to_wire write_params
to_wire-privmsg = refl

lone_colon : parse (codes ":only") ≡ none
unfolding parse parse_tags parse_source parse_command read_params trim_start split_once
lone_colon = refl

-- `@a @b` parses to the command `@B`, with neither source nor parameter.
abbrev at_b : Message
at_b = record {
  source = none;
  command = codes "@B";
  params = [];
  ctags = [];
  label = none;
  batch = none;
  concat = false;
}

parse-at_b : parse (codes "@a @b") ≡ some at_b
unfolding parse parse_tags parse_source parse_command read_params read_tags read_tag trim_start
    split_once split text_eq
parse-at_b = refl

privmsg-IsWire : IsWire privmsg
privmsg-IsWire = record {
  source_ok = omega arith;
  nonempty = cc;
  one_word = omega arith;
  is_upper = refl;
  leading = tt;
  params_ok = ((cc, omega arith, omega arith), tt);
}

parse-to_wire_example : parse (to_wire privmsg) ≡ some (core privmsg)
parse-to_wire_example = parse-to_wire privmsg privmsg-IsWire

parse-to_wire-parse_example : parse (to_wire privmsg) ≡ some (core privmsg)
parse-to_wire-parse_example =
    parse-to_wire-parse (codes "  :nick!u@h privmsg  x :a b") parse-privmsg (λ e. absurd (cc))

to_wire_at_sign_example : parse (to_wire at_b) ≡ none
to_wire_at_sign_example = to_wire_at_sign at_b (codes "B") refl refl refl (omega arith)

parse_total_example : (m : Message) × (parse (codes "PING :token") ≡ some m)
unfolding parse_tags parse_source parse_command trim_start split_once
parse_total_example =
    parse_total (codes "PING :token") (codes "PING :token") (codes "PING :token") no_tags none refl
      refl (cons-ne-nil _ _)

-- `@time=x;+typing=done;label=7 TAGMSG #d`
abbrev tagmsg : Message
tagmsg = record {
  source = none;
  command = codes "TAGMSG";
  params = codes "#d" ∷ [];
  ctags = codes "+typing=done";
  label = some (codes "7");
  batch = none;
  concat = false;
}

parse-tagmsg :
    parse (b'@' ∷ (codes "time=x;+typing=done;label=7" ++ b' ' ∷ codes "TAGMSG #d")) ≡ some tagmsg
unfolding parse parse_tags parse_source parse_command read_params read_tags read_tag trim_start
    split_once split text_eq
parse-tagmsg = refl

parse-tags_example : (tagmsg.ctags ≡ codes "+typing=done") × (tagmsg.label ≡ some (codes "7"))
unfolding join split
parse-tags_example =
    parse-tags (codes "time=x;+typing=done;label=7") (codes "TAGMSG #d") (omega arith) parse-tagmsg
