-- ===== src/Command/RoundTrip.antt =====
-- A message is read back from its text: `InitCCmd` behind `ToString` (netio/include/cmd_obj.h).
use middlewar_test.Base.{◌≡◌, refl, [], codes, IsInt}
use middlewar_test.Text.Dictionary.{Dict}
use middlewar_test.Text.Dictionary.Laws.{insert_all-sorted}
use middlewar_test.Text.Pairs.{IsValue, pairs_text, str_pair_append_to_map-pairs, pairs_text-IsFree}
use middlewar_test.Command.{Cmd, new_cmd, to_string, join_pairs, init_ccmd}
use middlewar_test.Command.Number.{print_int}
use middlewar_test.Command.Number.RoundTrip.{int_param-print_int}
use middlewar_test.Command.Written.{members, to_string-pairs, c_str-IsFree, members-AllValues}
use middlewar_test.Command.Fields.{IsPayload, read_back, take_params-members}

-- The members of a message that are an `int`.
pub record AreInts (c : Cmd) : Type 0 where
  pub ret_int : IsInt c.ret
  pub type_int : IsInt c.type
  pub cmd_int : IsInt c.cmd
  pub fd_int : IsInt c.fd
  pub index_int : IsInt c.index
  pub serial_int : IsInt c.svc_serial_no
  pub family_int : IsInt c.family
  pub port_int : IsInt c.port

read_back-same : (c : Cmd) → AreInts c → read_back c c.payload ≡ c
read_back-same c i =
    rw
      (
        int_param-print_int c.ret i.ret_int,
        int_param-print_int c.type i.type_int,
        int_param-print_int c.cmd i.cmd_int,
        int_param-print_int c.fd i.fd_int,
        int_param-print_int c.index i.index_int,
        int_param-print_int c.svc_serial_no i.serial_int,
        int_param-print_int c.family i.family_int,
        int_param-print_int c.port i.port_int,
      )
      refl

-- `InitCCmd` on a new object reads a message back from the text that `ToString` wrote: every member
-- and the data, where the members are an `int`, the client's address has no separator and no blank at an
-- end, and the data is the text of pairs in the order of their keys, without a member's name among
-- them, with keys and values that are like the address.
pub init_ccmd-to_string :
    (c : Cmd) (ps : Dict)
    → AreInts c
    → IsValue c.client_ip
    → IsPayload ps
    → c.payload ≡ join_pairs ps
    → init_ccmd new_cmd (to_string c) ≡ c
unfolding init_ccmd
init_ccmd-to_string c ps i h p e =
    let fields = members-AllValues c h in
    rw
      (
        to_string-pairs c ps e,
        c_str-IsFree (pairs_text (codes "ret", print_int c.ret) (members c) ps)
            (pairs_text-IsFree (codes "ret") (print_int c.ret) (members c) ps fields p.plain),
        str_pair_append_to_map-pairs (codes "ret") (print_int c.ret) (members c) ps [] fields
            p.plain,
        take_params-members c ps p,
        insert_all-sorted ps p.sorted,
        ← e,
      )
      (read_back-same c i)
