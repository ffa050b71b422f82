-- ===== src/Udsmsg/Session/Examples.antt =====
-- Tests of registry entries.
use harness_transport.Prelude.Int.{pos}
use harness_transport.Prelude.{◌≡◌, refl, Bytes, [], ◌∷◌, ◌++◌, none, some, err, codes, is_empty}
use harness_transport.Go.Space.{is_control, trim_space}
use harness_transport.Go.Utf8.{runes_from}
use harness_transport.Udsmsg.Session.{
  Process, new_session_entry, check_entry_name, has_control, control_character,
}

abbrev process : Process
process = record {
  pid = 7;
  uuid = codes "u";
  cwd = codes "/w";
  now = pos 1700000000000;
  started = some (codes "9");
  domain = none;
}

abbrev in_sessions : Bytes → Bytes
in_sessions n = codes "/s/" ++ n

-- A name with a bell in it is refused.
bell_refused :
    new_session_entry process (codes "/x.sock") (codes "a" ++ 7 ∷ []) (codes "cli") (codes "cli")
    ≡ err control_character
unfolding new_session_entry check_entry_name has_control is_control is_empty runes_from trim_space
bell_refused = refl
