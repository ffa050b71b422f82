-- ===== src/Udsmsg/Discover/Examples.antt =====
-- The theorems on udsmsg/discover.go at concrete inputs.
use harness_transport.Go.Strconv.{itoa}
use harness_transport.Prelude.{
  ◌≡◌, refl, true, false, Bytes, List, [], ◌∷◌, ◌++◌, Option, some, ok, codes, str_eq, is_empty,
  if◌then◌else◌,
}
use harness_transport.Udsmsg.Client.{Target}
use harness_transport.Udsmsg.KeyFile.{Key}
use harness_transport.Udsmsg.Discover.First.{Found, is_named, published_token, resolve_target-Found}
use harness_transport.Udsmsg.Discover.{Host, find_socket, target_at, resolve_target}

-- The second directory is usable and has the socket; the environment names another inbox.
abbrev host : Host
host = record {
  usable = λ d. str_eq d (codes "/b");
  has_file = λ _. true;
  join = λ a b. a ++ (codes "/" ++ b);
  read_key = λ _ _.
      some (some (record { peer_token = codes "p"; proc_start = codes "9"; pid_domain = [] }));
  env_socket = codes "/c/1.sock";
  env_token = codes "child";
}

abbrev dirs : List Bytes
dirs = codes "/a" ∷ codes "/b" ∷ []

abbrev target : Target
target = record {
  pid = 7;
  proc_start = codes "9";
  socket_path = codes "/b/7.sock";
  token = codes "p";
  unauthenticated = false;
}

seven_resolved : resolve_target host dirs 7 ≡ ok target
unfolding resolve_target find_socket target_at itoa str_eq is_empty
seven_resolved = refl

resolve_target-Found_example :
    Found host dirs 7 (codes "/b/7.sock")
    × ((k : Option Key) × (host.read_key 7 (codes "/b/7.sock") ≡ some k)
        × (codes "p"
            ≡ (if is_named host (codes "/b/7.sock") then host.env_token else published_token k)))
resolve_target-Found_example = resolve_target-Found host dirs 7 seven_resolved
