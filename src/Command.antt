-- ===== src/Command.antt =====
-- `CCmd` of netio/include/cmd_obj.h, the message that the processes exchange, and its text.
pub mod Number
pub mod Written
pub mod Fields
pub mod RoundTrip
pub mod Buffer
pub mod Parsed
pub mod Sizes
mod Tests
use middlewar_test.Base.{
  ℕ, ◌+◌, ◌-◌, none, some, [], ◌∷◌, ◌++◌, Bytes, codes, ◌==◌, if◌then◌else◌, take, ℤ, pos, to_int,
}
use middlewar_test.Text.{str_pair_append_to_map}
use middlewar_test.Text.Dictionary.{Dict, lookup, erase}
use Number.{print_int, atoll}

pub record Cmd : Type 0 where
  pub index : ℤ
  pub svc_serial_no : ℤ
  pub fd : ℤ
  pub cmd : ℤ
  pub family : ℤ
  pub client_ip : Bytes
  pub port : ℤ
  pub payload : Bytes
  pub ret : ℤ
  pub type : ℤ

-- The constructor.
abbrev pub new_cmd : Cmd
new_cmd = record {
  index = pos 0;
  svc_serial_no = pos 0;
  fd = pos 0;
  cmd = pos 0;
  family = pos 0;
  client_ip = [];
  port = pos 0;
  payload = [];
  ret = pos 0;
  type = pos 0;
}

-- What `c_str` shows to `%s`: the bytes before the first zero.
unfoldable pub c_str : Bytes → Bytes
c_str [] = []
c_str (c ∷ s) = if c == 0 then [] else c ∷ c_str s

-- The text that both `ToString` write, from the texts of the client's address and of the data.
unfoldable pub text_of : Cmd → Bytes → Bytes → Bytes
text_of c ip payload =
    codes "ret="
    ++ print_int c.ret
    ++ codes "&type="
    ++ print_int c.type
    ++ codes "&index="
    ++ print_int c.index
    ++ codes "&serialno="
    ++ print_int c.svc_serial_no
    ++ codes "&cmd="
    ++ print_int c.cmd
    ++ codes "&fd="
    ++ print_int c.fd
    ++ codes "&family="
    ++ print_int c.family
    ++ codes "&cliIp="
    ++ ip
    ++ codes "&cliPort="
    ++ print_int c.port
    ++ codes "&"
    ++ payload

-- `ToString()`.
unfoldable pub to_string : Cmd → Bytes
unfolding text_of
to_string c = text_of c c.client_ip c.payload

-- `ToString(pBuf, iLen)`: `snprintf` leaves room for the zero that ends the text in the buffer.
unfoldable pub to_buffer : Cmd → ℕ → Bytes
unfolding text_of c_str
to_buffer c len = take (len - 1) (text_of c (c_str c.client_ip) (c_str c.payload))

-- A parameter that is there sets its member and is taken out of the map.
unfoldable pub take_param : Bytes → (Bytes → Cmd → Cmd) → Dict × Cmd → Dict × Cmd
take_param key put (m, c) = elim (lookup key m) [ none ↦ (m, c) | some v ↦ (erase key m, put v c) ]

unfoldable pub int_param : Bytes → ℤ
int_param v = to_int (atoll v)

-- The pairs that are left, written back.
unfoldable pub join_pairs : Dict → Bytes
join_pairs [] = []
join_pairs ((k, v) ∷ []) = k ++ b'=' ∷ v
join_pairs ((k, v) ∷ p ∷ m) = k ++ b'=' ∷ v ++ b'&' ∷ join_pairs (p ∷ m)

-- The members in the order in which `InitCCmd` looks for them.
unfoldable pub take_params : Dict × Cmd → Dict × Cmd
take_params s0 =
    let s1 = take_param (codes "ret") (λ v c. record c { ret = int_param v }) s0 in
    let s2 = take_param (codes "type") (λ v c. record c { type = int_param v }) s1 in
    let s3 = take_param (codes "cmd") (λ v c. record c { cmd = int_param v }) s2 in
    let s4 = take_param (codes "fd") (λ v c. record c { fd = int_param v }) s3 in
    let s5 = take_param (codes "index") (λ v c. record c { index = int_param v }) s4 in
    let s6 = take_param (codes "serialno") (λ v c. record c { svc_serial_no = int_param v }) s5 in
    let s7 = take_param (codes "family") (λ v c. record c { family = int_param v }) s6 in
    let s8 = take_param (codes "cliPort") (λ v c. record c { port = int_param v }) s7 in
    take_param (codes "cliIp") (λ v c. record c { client_ip = v }) s8

-- `InitCCmd(pBuf)` on the object `c`.
unfoldable pub init_ccmd : Cmd → Bytes → Cmd
init_ccmd c buf =
    let (m, c') = take_params (str_pair_append_to_map (c_str buf) [], c) in
    record c' { payload = join_pairs m }
