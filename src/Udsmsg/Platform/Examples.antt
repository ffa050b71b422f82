-- ===== src/Udsmsg/Platform/Examples.antt =====
-- A test of `peerCred` at a connection on macOS.
use harness_transport.Prelude.{
  ℕ, ◌≡◌, refl, true, false, Bytes, [], ◌∷◌, Option, none, some, codes, ok,
}
use harness_transport.Udsmsg.Platform.{
  Conn, System, darwin, first_group, controlled, darwin_peer, peer_cred,
}

abbrev unix_conn : Conn
unix_conn = record { is_unix = true; syscall_error = none; control_error = none }

abbrev started : ℕ → Option Bytes
started _ = some (codes "1700000000")

abbrev two_groups : System
two_groups = darwin (ok (record { uid = 501; groups = 20 ∷ 80 ∷ [] })) (ok 4242)

two_groups_found :
    peer_cred started unix_conn two_groups
    ≡ ok (record {
      pid = 4242;
      uid = 501;
      gid = 20;
      proc_start = codes "1700000000";
      authed = false;
      addr = [];
      identified = true;
    })
unfolding peer_cred controlled darwin_peer first_group
two_groups_found = refl
