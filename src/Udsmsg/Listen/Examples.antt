-- ===== src/Udsmsg/Listen/Examples.antt =====
-- The theorems on `Listen` and `Close` at a concrete machine and disk.
use harness_transport.Go.Json.Store.Laws.{IsText}
use harness_transport.Go.Utf8.Valid.{are_valid}
use harness_transport.Disk.Memory.{memory_disk, memory_disk-IsLawful, empty_disk}
use harness_transport.Disk.{last_state, replace}
use harness_transport.Go.Json.{object, quote}
use harness_transport.Go.Strconv.{itoa, hex_string}
use harness_transport.Go.Utf8.{runes_from}
use harness_transport.Prelude.{
  ◌≡◌, refl, true, false, [], ◌∷◌, ◌++◌, some, none, ok, err, codes, str_eq, is_empty,
  if◌then◌else◌,
}
use harness_transport.Udsmsg.Addr.{check_dir}
use harness_transport.Udsmsg.KeyFile.{
  Host, Key, without_file, canonical, key_file_name, marshal_key, read_key, write_key, write_named,
  publish, new_token,
}
use harness_transport.Udsmsg.KeyFile.Names.{IsDistinct}
use harness_transport.Udsmsg.Listen.{
  Machine, Config, Inbox, own_key, inbox_at, close, publish_key_of, listen_at, listen, socket_path,
  posture, remove_stale, removed, opened, secured,
}
use harness_transport.Udsmsg.Listen.Published.{close-leaves}
use harness_transport.Udsmsg.Proc.{no_parent}

abbrev machine : Machine
machine = record {
  join = λ a b. a ++ b;
  dir_of = λ _. codes "/d";
  dir_info = λ _. some (record { is_dir = true; perm = 448; owner = some 0 });
  made_info = λ _. none;
  makes_dir = λ _. true;
  secures_dir = λ _. true;
  is_socket = λ _. true;
  resolves = λ _. true;
  binds = λ _. true;
  secures = λ _. true;
  uid = 1;
  pid = 7;
  random_name = none;
  random_token = 1 ∷ [];
  random_suffix = some (2 ∷ []);
  mode = err no_parent;
  started = none;
  domain = none;
}

abbrev key : Key
key = record { peer_token = codes "01"; proc_start = []; pid_domain = [] }

abbrev host : Host
host = record {
  eval_symlinks = λ _. none;
  clean = λ p. p;
  abs = λ p. some p;
  sha256 = λ _. 171 ∷ [];
  in_sessions = λ n. codes "/s/" ++ n;
}

abbrev config : Config
config = record { path = codes "/d/x.sock"; publish_key = true; derives_mode = false }

abbrev inbox : Inbox
inbox = record {
  path = codes "/d/x.sock";
  mode = [];
  token = codes "01";
  publish_key = true;
  is_closed = false;
}

steps :
    (listen machine memory_disk host empty_disk [] config).0
    ≡ removed (codes "/d/x.sock") ∷ opened (codes "/d/x.sock") ∷ secured (codes "/d/x.sock") ∷ []
unfolding listen socket_path check_dir listen_at publish_key_of inbox_at posture own_key new_token
    write_key write_named publish replace key_file_name canonical itoa hex_string marshal_key object
    quote runes_from str_eq is_empty remove_stale
steps = refl

started_text : IsText (own_key machine).proc_start
unfolding own_key runes_from are_valid
started_text = refl

domain_text : IsText (own_key machine).pid_domain
unfolding own_key runes_from are_valid
domain_text = refl

-- The directory of the socket is a link to another one.
abbrev linked : Host
linked = record {
  eval_symlinks = λ _. some (codes "/e/x.sock");
  clean = λ p. p;
  abs = λ p. some p;
  sha256 = λ p. if str_eq p (codes "/e/x.sock") then 1 ∷ [] else 171 ∷ [];
  in_sessions = λ n. codes "/s/" ++ n;
}

linked-IsDistinct : IsDistinct linked
linked-IsDistinct a b _ _ e = cc

linked_listened : (listen machine memory_disk linked empty_disk [] config).2 ≡ ok inbox
unfolding listen socket_path check_dir listen_at publish_key_of inbox_at posture own_key new_token
    write_key write_named publish replace key_file_name canonical itoa hex_string marshal_key object
    quote runes_from str_eq is_empty
linked_listened = refl

linked_named : key_file_name linked 7 (codes "/d/x.sock") ≡ some (codes "7.01.key")
unfolding key_file_name canonical itoa hex_string str_eq
linked_named = refl

linked_renamed :
    key_file_name (without_file (codes "/d/x.sock") linked) 7 (codes "/d/x.sock")
    ≡ some (codes "7.ab.key")
unfolding key_file_name canonical itoa hex_string without_file str_eq
linked_renamed = refl

close-leaves_example :
    let t =
      last_state memory_disk empty_disk
        (listen machine memory_disk linked empty_disk [] config).1 in
    let u = last_state memory_disk t (close machine memory_disk linked t inbox).1 in
    (memory_disk.read u (codes "/s/7.01.key") ≡ memory_disk.read t (codes "/s/7.01.key"))
    × (read_key memory_disk linked u u 7 (codes "/d/x.sock") ≡ ok (some (own_key machine)))
close-leaves_example =
    close-leaves machine memory_disk memory_disk-IsLawful linked linked-IsDistinct empty_disk []
      config refl linked_listened linked_named linked_renamed (λ e. cc) refl started_text
      domain_text
