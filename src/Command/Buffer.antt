-- ===== src/Command/Buffer.antt =====
-- A message is read back from a buffer that is large enough (netio/include/cmd_obj.h).
use middlewar_test.Base.{
  ℕ, ◌-◌, ◌<◌, ◌≡◌, sym, ap, ◌∙◌, [], ◌∷◌, map, codes, length, take_all, arith, Bytes, ℤ, pos,
  negsuc, zero, suc, ◌+◌, ◌/◌, ◌%◌, ◌≤◌, length-append,
}
use middlewar_test.Text.Dictionary.{Dict}
use middlewar_test.Text.Splitting.{IsFree}
use middlewar_test.Text.Pairs.{
  IsValue, AllValues, IsFree-join, AllFree-zero-parts, pair_text, pairs_text-IsFree,
}
use middlewar_test.Command.{
  Cmd, new_cmd, c_str, text_of, to_string, to_buffer, join_pairs, init_ccmd,
}
use middlewar_test.Command.Number.{print_int, digits}
use middlewar_test.Command.Written.{
  members, members-AllValues, join-pairs, c_str-IsFree, to_string-pairs,
}
use middlewar_test.Command.Fields.{IsPayload}
use middlewar_test.Command.RoundTrip.{AreInts, init_ccmd-to_string}

join_pairs-IsFree : (ps : Dict) → AllValues ps → IsFree 0 (join_pairs ps)
join_pairs-IsFree [] h = unfold join_pairs in tt
join_pairs-IsFree (p ∷ ps) h = rw (join-pairs p ps) (
    IsFree-join (pair_text p) (map pair_text ps) (AllFree-zero-parts (p ∷ ps) h).0
      (AllFree-zero-parts (p ∷ ps) h).1)

-- What a message has to be for its text to be read back.
pub record IsReadable (c : Cmd) (ps : Dict) : Type 0 where
  pub ints : AreInts c
  pub address : IsValue c.client_ip
  pub data_pairs : IsPayload ps
  pub data_text : c.payload ≡ join_pairs ps

to_string-IsFree : (c : Cmd) (ps : Dict) → IsReadable c ps → IsFree 0 (to_string c)
to_string-IsFree c ps r = rw (to_string-pairs c ps r.data_text) (
    pairs_text-IsFree (codes "ret") (print_int c.ret) (members c) ps (members-AllValues c r.address)
      r.data_pairs.plain)

-- A buffer of more bytes than the text has holds the text.
pub c_str-to_buffer :
    (c : Cmd) (ps : Dict) (n : ℕ)
    → IsReadable c ps
    → length (to_string c) < n
    → c_str (to_buffer c n) ≡ to_string c
unfolding to_buffer to_string
c_str-to_buffer c ps n r h =
    let payload : c_str c.payload ≡ c.payload =
      ap c_str r.data_text
      ∙ c_str-IsFree (join_pairs ps) (join_pairs-IsFree ps r.data_pairs.plain)
      ∙ sym r.data_text in
    rw
      (
        c_str-IsFree c.client_ip (r.address.0),
        payload,
        take_all (n - 1) (text_of c c.client_ip c.payload) (omega (arith, h)),
      )
      (c_str-IsFree (to_string c) (to_string-IsFree c ps r))

-- `InitCCmd` on a new object reads back every member and the data of a message that `ToString` wrote
-- into a buffer of more bytes than its text, if the members are an `int`, the address has no separator,
-- and blanks only within, and the data is the text of pairs in the order of their keys, whose keys and values
-- have no separator, and blanks only within, and whose keys are no member's name.
pub init_ccmd-to_buffer :
    (c : Cmd) (ps : Dict) (n : ℕ)
    → IsReadable c ps
    → length (to_string c) < n
    → init_ccmd new_cmd (c_str (to_buffer c n)) ≡ c
init_ccmd-to_buffer c ps n r h =
    rw (c_str-to_buffer c ps n r h)
      (init_ccmd-to_string c ps r.ints r.address r.data_pairs r.data_text)

length-digits-le : (f n : ℕ) (out : Bytes) → length (digits f n out) ≤ f + length out
unfolding digits
length-digits-le zero n out = omega arith
length-digits-le (suc f) n out = ground (arith, length-digits-le f (n / 10) ((b'0' + n % 10) ∷ out))

pub length-print_int-le : (z : ℤ) → length (print_int z) ≤ 11
unfolding print_int
length-print_int-le (pos n) = omega (arith, length-digits-le 10 n [])
length-print_int-le (negsuc n) = omega (arith, length-digits-le 10 (suc n) [])

-- A bound on the text of a message.
pub length-to_string-le :
    (c : Cmd) → length (to_string c) ≤ 150 + length c.client_ip + length c.payload
unfolding to_string text_of
length-to_string-le c = simp length-append (
    omega (
      arith,
      length-print_int-le c.ret,
      length-print_int-le c.type,
      length-print_int-le c.index,
      length-print_int-le c.svc_serial_no,
      length-print_int-le c.cmd,
      length-print_int-le c.fd,
      length-print_int-le c.family,
      length-print_int-le c.port,
    ))
