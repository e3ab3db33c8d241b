-- ===== src/Command/Tests.antt =====
-- The text of a message and back (netio/include/cmd_obj.h), on one message.
use middlewar_test.Base.{codes, ◌≡◌, refl, pos, negsuc, to_int}
use middlewar_test.Command.{
  take_params, take_param, int_param, c_str, Cmd, new_cmd, to_string, init_ccmd, join_pairs,
}
use middlewar_test.Command.Number.{print_int, digits, atoll, read_signed, read_digits}
use middlewar_test.Text.{
  str_pair_append_to_map, split_loop, find_sep, split_string, trim, append_parts, append_pair,
}
use middlewar_test.Text.Dictionary.{lookup, insert, erase}

abbrev sample : Cmd
sample = record new_cmd {
  cmd = pos 2;
  fd = pos 17;
  ret = negsuc 4;
  client_ip = codes "10.0.0.1";
  payload = codes "a=1&z=2";
}

sample_read_back : init_ccmd new_cmd (to_string sample) ≡ sample
unfolding init_ccmd take_params take_param int_param c_str to_string str_pair_append_to_map
    split_string trim append_parts append_pair lookup insert erase split_loop join_pairs find_sep
    print_int digits to_int atoll read_signed read_digits
sample_read_back = refl
