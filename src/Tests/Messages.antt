-- ===== src/Tests/Messages.antt =====
-- The theorems on netio/src/msgq_manager.cpp, netio/include/cmd_obj.h and
-- netio/include/string_helper.h, on single messages.
use middlewar_test.Base.{
  Bytes, bytes_eq, pos, negsuc, ◌≡◌, refl, some, [], ◌∷◌, codes, find_key, negsuc, arith,
}
use middlewar_test.Command.{Cmd, new_cmd, to_string, to_buffer, c_str, join_pairs, init_ccmd}
use middlewar_test.Command.Number.{print_int, digits}
use middlewar_test.Command.Parsed.{left_pairs, read-IsReadable, init_ccmd_again}
use middlewar_test.Command.Buffer.{IsReadable, init_ccmd-to_buffer}
use middlewar_test.Text.Dictionary.{Dict, key_lt, lookup}
use middlewar_test.Queue.{buf_size, MsgQueue, add_msg_queue, get_msg_queue}
use middlewar_test.Queue.Laws.{failed_queue_kept}
use middlewar_test.Text.Pairs.{IsPlain-IsValue}
use middlewar_test.Text.{split_loop, split_string, str_pair_append_to_map}
use middlewar_test.Text.Lookups.{or_else, pairs_of, lookup-str_pair_append_to_map}
use middlewar_test.Text.Parts.{IsSplit, split_string_ends}
use middlewar_test.Tests.Kernel.{closed_office}

abbrev queue : MsgQueue
queue = record { id = 4; key = 0xccccd }

failed_queue_kept_example :
    ((add_msg_queue closed_office [] 0xccccd []).0 ≡ 0)
    × (get_msg_queue (add_msg_queue closed_office [] 0xccccd []).1 0xccccd
        ≡ (0, some (record { id = 0; key = 0 })))
unfolding find_key
failed_queue_kept_example = failed_queue_kept closed_office [] 0xccccd [] refl refl

split_string_ends_example :
    (split_loop 9 b'&' (codes "a&&b&") ≡ split_string (codes "a&&b&") b'&')
    × IsSplit b'&' (codes "a&&b&") (split_string (codes "a&&b&") b'&')
split_string_ends_example = split_string_ends 9 b'&' (codes "a&&b&") (λ h. cc) (omega arith)

-- A message of `CSvcTest2` to the front process.
abbrev reply : Cmd
reply = record new_cmd {
  cmd = pos 2;
  fd = pos 17;
  ret = negsuc 4;
  client_ip = codes "10.0.0.1";
  payload = codes "a=1&z=2";
}

abbrev pairs : Dict
pairs = (codes "a", codes "1") ∷ (codes "z", codes "2") ∷ []

reply-IsReadable : IsReadable reply pairs
unfolding join_pairs key_lt bytes_eq
reply-IsReadable = record {
  ints = record {
    ret_int = omega arith;
    type_int = omega arith;
    cmd_int = omega arith;
    fd_int = omega arith;
    index_int = omega arith;
    serial_int = omega arith;
    family_int = omega arith;
    port_int = omega arith;
  };
  address = IsPlain-IsValue (codes "10.0.0.1") (ground arith);
  data_pairs = record {
    sorted = ((refl, tt), (tt, tt));
    plain = (
      IsPlain-IsValue (codes "a") (refl, tt),
      IsPlain-IsValue (codes "1") (refl, tt),
      (IsPlain-IsValue (codes "z") (refl, tt), IsPlain-IsValue (codes "2") (refl, tt), tt),
    );
    foreign = (
      (refl, (refl, tt)),
      (
        (refl, (refl, tt)),
        (
          (refl, (refl, tt)),
          (
            (refl, (refl, tt)),
            (
              (refl, (refl, tt)),
              (
                (refl, (refl, tt)),
                ((refl, (refl, tt)), ((refl, (refl, tt)), ((refl, (refl, tt)), tt))),
              ),
            ),
          ),
        ),
      ),
    );
  };
  data_text = refl;
}

init_ccmd-to_buffer_example : init_ccmd new_cmd (c_str (to_buffer reply buf_size)) ≡ reply
unfolding to_string print_int digits
init_ccmd-to_buffer_example =
    init_ccmd-to_buffer reply pairs buf_size reply-IsReadable (omega arith)

-- A text with blanks, an unknown key, a part without a value and a key that comes twice.
abbrev loose : Bytes
loose = codes "cmd = 1& x y = a  b &z&cmd=2&ret=5000000000&cliIp= 10.0.0.1"

read-IsReadable_example : IsReadable (init_ccmd new_cmd loose) (left_pairs loose)
read-IsReadable_example = read-IsReadable loose

init_ccmd_again_example :
    init_ccmd new_cmd (to_string (init_ccmd new_cmd loose)) ≡ init_ccmd new_cmd loose
init_ccmd_again_example = init_ccmd_again loose

-- The second value of a key is not taken, and a key that the map has keeps its own.
lookup-str_pair_append_to_map_example :
    lookup
      (codes "b")
      (str_pair_append_to_map (codes "a=1& b = 2&b=3&=&c") ((codes "a", codes "0") ∷ []))
    ≡ or_else
        (lookup (codes "b") ((codes "a", codes "0") ∷ []))
        (lookup (codes "b") (pairs_of (split_string (codes "a=1& b = 2&b=3&=&c") b'&')))
lookup-str_pair_append_to_map_example =
    lookup-str_pair_append_to_map (codes "b") (codes "a=1& b = 2&b=3&=&c")
      ((codes "a", codes "0") ∷ []) (tt, tt)
