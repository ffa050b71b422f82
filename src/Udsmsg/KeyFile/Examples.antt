-- ===== src/Udsmsg/KeyFile/Examples.antt =====
-- The theorems on key files at a concrete disk.
use harness_transport.Disk.Memory.{memory_disk, memory_disk-IsLawful, empty_disk}
use harness_transport.Disk.Replace.{IsAtomic}
use harness_transport.Disk.{replace}
use harness_transport.Go.Json.{object, quote}
use harness_transport.Go.Strconv.{itoa, hex_string}
use harness_transport.Go.Utf8.{runes_from}
use harness_transport.Prelude.{◌≡◌, refl, Bytes, [], ◌∷◌, ◌++◌, some, none, ok, codes, str_eq}
use harness_transport.Udsmsg.KeyFile.Atomic.{write_key-IsAtomic}
use harness_transport.Udsmsg.KeyFile.Names.{IsDistinct}
use harness_transport.Udsmsg.KeyFile.{
  Host, Key, KeyError, canonical, key_file_name, marshal_key, write_key, write_named, publish,
}

abbrev key : Key
key = record { peer_token = codes "t"; proc_start = codes "9"; pid_domain = codes "linux" }

-- A host whose digest of every path is one byte.
abbrev host : Host
host = record {
  eval_symlinks = λ _. none;
  clean = λ p. p;
  abs = λ p. some p;
  sha256 = λ _. 171 ∷ [];
  in_sessions = λ n. codes "/s/" ++ n;
}

host-IsDistinct : IsDistinct host
host-IsDistinct a b _ _ e = cc

abbrev name : Bytes
name = codes "7.ab.key"

host_named : key_file_name host 7 (codes "/x.sock") ≡ some name
unfolding key_file_name canonical itoa hex_string
host_named = refl

write_key-IsAtomic_example :
    IsAtomic KeyError memory_disk empty_disk
      (codes "/s/7.ab.key")
      (marshal_key key)
      (write_key memory_disk host empty_disk 7 (codes "/x.sock") (some (1 ∷ [])) key).0
      (write_key memory_disk host empty_disk 7 (codes "/x.sock") (some (1 ∷ [])) key).1
write_key-IsAtomic_example =
    write_key-IsAtomic memory_disk memory_disk-IsLawful host host-IsDistinct empty_disk 7
      (codes "/x.sock") (some (1 ∷ [])) key host_named

key_written :
    (write_key memory_disk host empty_disk 7 (codes "/x.sock") (some (1 ∷ [])) key).1 ≡ ok tt
unfolding write_key write_named publish replace key_file_name canonical itoa hex_string marshal_key
    object quote runes_from str_eq
key_written = refl
