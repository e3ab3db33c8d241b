-- ===== src/Container/Messages.antt =====
-- The messages between `CSvcTest2` and `CSvcTest` (netio/src/svc_test2.cpp, netio/src/svc_test.cpp)
-- are read back as they were written.
use middlewar_test.Base.{
  Bytes, ℕ, ◌≤◌, ◌<◌, ◌≡◌, refl, [], ◌∷◌, codes, length, pos, int_max, bytes_eq, arith,
}
use middlewar_test.Text.Dictionary.{Dict, key_lt}
use middlewar_test.Text.Pairs.{IsValue, IsPlain-IsValue}
use middlewar_test.Command.RoundTrip.{AreInts}
use middlewar_test.Command.{Cmd, to_string, join_pairs}
use middlewar_test.Command.Buffer.{IsReadable, length-to_string-le}
use middlewar_test.Base.{◌≢◌, some}
use middlewar_test.Netio.{route}
use middlewar_test.Queue.{Ipc, buf_size, response}
use middlewar_test.Container.Services.{question}
use middlewar_test.Container.Answering.{answer_to}

pub question-IsReadable : (i : ℕ) → i ≤ int_max → IsReadable (question i) []
unfolding join_pairs question
question-IsReadable i h = record {
  ints = record {
    ret_int = omega arith;
    type_int = omega arith;
    cmd_int = omega arith;
    fd_int = omega arith;
    index_int = omega arith;
    serial_int = h;
    family_int = omega arith;
    port_int = omega arith;
  };
  address = IsPlain-IsValue [] tt;
  data_pairs = record { sorted = tt; plain = tt; foreign = ground arith };
  data_text = refl;
}

pub length-question : (i : ℕ) → length (to_string (question i)) < buf_size
unfolding question
length-question i = omega (arith, length-to_string-le (question i))

abbrev pub answer_pairs : Dict
answer_pairs = (codes "resp1", codes "r1") ∷ []

module _ (ipc : Ipc) (behind : Bytes) where
  pub answer-IsReadable :
      (c : Cmd) → AreInts c → IsValue c.client_ip → IsReadable (answer_to ipc behind c) answer_pairs
  unfolding join_pairs key_lt bytes_eq
  answer-IsReadable c i h = record {
    ints = record {
      ret_int = i.ret_int;
      type_int = omega arith;
      cmd_int = i.cmd_int;
      fd_int = i.fd_int;
      index_int = i.index_int;
      serial_int = i.serial_int;
      family_int = i.family_int;
      port_int = i.port_int;
    };
    address = h;
    data_pairs = record {
      sorted = ground arith;
      plain = (
        IsPlain-IsValue (codes "resp1") (ground arith),
        IsPlain-IsValue (codes "r1") (ground arith),
        tt,
      );
      foreign = ground arith;
    };
    data_text = refl;
  }

  pub length-answer :
      (c : Cmd) → length c.client_ip ≤ 15 → length (to_string (answer_to ipc behind c)) < buf_size
  length-answer c h = omega (arith, length-to_string-le (answer_to ipc behind c))

pub question_members :
    (i : ℕ)
    → ((question i).type ≢ response)
      × ((question i).ret ≡ pos 0)
      × ((question i).svc_serial_no ≡ pos i)
      × (route (question i).cmd ≡ some 0xcccce)
unfolding question route
question_members i = (ground arith, refl, refl, refl)
