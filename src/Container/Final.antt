-- ===== src/Container/Final.antt =====
-- The text of the reply of `CSvcTest2` (netio/src/svc_test2.cpp) to its client.
use middlewar_test.Base.{
  ℕ, ◌-◌, ◌≤◌, ◌<◌, ◌≡◌, refl, [], ◌∷◌, ◌++◌, Bytes, codes, take, length, length-append, pos,
  bytes_eq, arith,
}
use middlewar_test.Text.Dictionary.{Dict, key_lt}
use middlewar_test.Text.Pairs.{IsValue, IsPlain-IsValue, IsFree-append, IsFree-zero}
use middlewar_test.Text.Splitting.{IsFree}
use middlewar_test.Command.{Cmd, c_str, to_string, join_pairs}
use middlewar_test.Command.Number.{print_int}
use middlewar_test.Command.Written.{print_int-IsPlain}
use middlewar_test.Command.RoundTrip.{AreInts}
use middlewar_test.Command.Buffer.{IsReadable, length-to_string-le, length-print_int-le}
use middlewar_test.Queue.{Ipc, buf_size}
use middlewar_test.Container.{signed}
use middlewar_test.Container.Services.{question}
use middlewar_test.Container.Answering.{answer_to}
use middlewar_test.Container.Conversation.{final_reply}
use middlewar_test.Container.Client.{IsValue-process, kept_whole}

-- The data of both services, and the process.
abbrev pub final_text : ℕ → Bytes
final_text pid = codes "resp1=r1&resp2=r2 by pid:" ++ print_int (pos pid)

abbrev pub final_pairs : ℕ → Dict
final_pairs pid =
    (codes "resp1", codes "r1") ∷ (codes "resp2", codes "r2 by pid:" ++ print_int (pos pid)) ∷ []

final_text-IsFree : (pid : ℕ) → IsFree 0 (final_text pid)
final_text-IsFree pid =
    IsFree-append 0 (codes "resp1=r1&resp2=r2 by pid:") (print_int (pos pid)) (ground arith)
      (IsFree-zero (print_int (pos pid)) (print_int-IsPlain (pos pid)))

pub final_text_kept :
    (pid : ℕ) → c_str (take (buf_size - 1) (c_str (final_text pid))) ≡ final_text pid
final_text_kept pid = kept_whole (final_text pid) (final_text-IsFree pid) (
    omega (
      arith,
      length-append (codes "resp1=r1&resp2=r2 by pid:") (print_int (pos pid)),
      length-print_int-le (pos pid),
    ))

module _ (ipc : Ipc) (behind : Bytes) where
  -- What the front process gets for the request `c` whose service has the number `i`.
  abbrev pub final_to : ℕ → ℕ → Cmd → Cmd
  final_to pid i c = signed pid (final_reply ipc behind c (answer_to ipc behind (question i)))

  pub final-IsReadable :
      (pid i : ℕ) (c : Cmd)
      → AreInts c
      → IsValue c.client_ip
      → IsReadable (final_to pid i c) (final_pairs pid)
  unfolding signed join_pairs key_lt bytes_eq
  final-IsReadable pid i c a h = record {
    ints = record {
      ret_int = omega arith;
      type_int = omega arith;
      cmd_int = a.cmd_int;
      fd_int = a.fd_int;
      index_int = a.index_int;
      serial_int = omega arith;
      family_int = a.family_int;
      port_int = a.port_int;
    };
    address = h;
    data_pairs = record {
      sorted = ground arith;
      plain = (
        IsPlain-IsValue (codes "resp1") (ground arith),
        IsPlain-IsValue (codes "r1") (ground arith),
        (
          IsPlain-IsValue (codes "resp2") (ground arith),
          IsValue-process (codes "2 by pid:") pid (ground arith) (ground arith) (ground arith),
          tt,
        ),
      );
      foreign = ground arith;
    };
    data_text = refl;
  }

  pub length-final :
      (pid i : ℕ) (c : Cmd)
      → length c.client_ip ≤ 15
      → length (to_string (final_to pid i c)) < buf_size
  unfolding signed
  length-final pid i c h =
      omega (arith, length-to_string-le (final_to pid i c), length-print_int-le (pos pid))
