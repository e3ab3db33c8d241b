-- ===== src/Command/Written.antt =====
-- The text of a message as the text of pairs (netio/include/cmd_obj.h).
use middlewar_test.Base.{
  Bool, true, ◌&&◌, ℕ, zero, suc, ◌+◌, ◌/◌, ◌%◌, ◌≡◌, refl, ap, [], ◌∷◌, ◌++◌, map, append_assoc,
  Bytes, codes, ℤ, pos, negsuc, arith,
}
use middlewar_test.Text.Dictionary.{Dict}
use middlewar_test.Text.Splitting.{IsFree, join}
use middlewar_test.Text.Pairs.{
  is_plain, IsPlain, IsValue, IsPlain-IsValue, AllValues, pair_text, last_parts, pairs_text,
}
use middlewar_test.Command.{Cmd, c_str, text_of, to_string, join_pairs}
use middlewar_test.Command.Number.{digits, print_int}

digits-IsPlain : (f n : ℕ) (out : Bytes) → IsPlain out → IsPlain (digits f n out)
unfolding digits
digits-IsPlain zero n out h = h
digits-IsPlain (suc f) n out h =
    ground (arith, h, digits-IsPlain f (n / 10) ((b'0' + n % 10) ∷ out))

pub print_int-IsPlain : (z : ℤ) → IsPlain (print_int z)
unfolding print_int
print_int-IsPlain (pos n) = digits-IsPlain 10 n [] tt
print_int-IsPlain (negsuc n) = (refl, digits-IsPlain 10 (suc n) [] tt)

pub print_int-IsValue : (z : ℤ) → IsValue (print_int z)
print_int-IsValue z = IsPlain-IsValue (print_int z) (print_int-IsPlain z)

-- The members of a message behind the first, as pairs in the order of the text.
abbrev pub members : Cmd → Dict
members c =
    (codes "type", print_int c.type)
    ∷ (codes "index", print_int c.index)
    ∷ (codes "serialno", print_int c.svc_serial_no)
    ∷ (codes "cmd", print_int c.cmd)
    ∷ (codes "fd", print_int c.fd)
    ∷ (codes "family", print_int c.family)
    ∷ (codes "cliIp", c.client_ip)
    ∷ (codes "cliPort", print_int c.port)
    ∷ []

pub join-pairs :
    (p : Bytes × Bytes) (ps : Dict)
    → join_pairs (p ∷ ps) ≡ join b'&' (pair_text p) (map pair_text ps)
unfolding join_pairs
join-pairs (k, v) [] = refl
join-pairs (k, v) (p ∷ ps) = ap (λ s. k ++ b'=' ∷ v ++ b'&' ∷ s) (join-pairs p ps)

join-last : (s : Bytes) (ps : Dict) → s ++ b'&' ∷ join_pairs ps ≡ join b'&' s (last_parts ps)
unfolding join_pairs
join-last s [] = refl
join-last s (p ∷ ps) = ap (λ t. s ++ b'&' ∷ t) (join-pairs p ps)

pub to_string-pairs :
    (c : Cmd) (ps : Dict)
    → c.payload ≡ join_pairs ps
    → to_string c ≡ pairs_text (codes "ret", print_int c.ret) (members c) ps
unfolding to_string text_of
to_string-pairs c ps e =
    rw (e, ← join-last (codes "cliPort=" ++ print_int c.port) ps) (simp append_assoc)

pub c_str-IsFree : (s : Bytes) → IsFree 0 s → c_str s ≡ s
unfolding c_str
c_str-IsFree [] h = refl
c_str-IsFree (c ∷ s) (h, hs) = ground (arith, c_str-IsFree s hs)

all_plain : Bytes → Bool
all_plain [] = true
all_plain (c ∷ s) = is_plain c && all_plain s

all_plain_lem : (s : Bytes) → all_plain s ≡ true → IsPlain s
unfolding all_plain
all_plain_lem [] h = tt
all_plain_lem (c ∷ s) h = (ground (arith, h), all_plain_lem s (ground (arith, h)))

key-IsValue : (s : Bytes) → all_plain s ≡ true → IsValue s
key-IsValue s h = IsPlain-IsValue s (all_plain_lem s h)

pub members-AllValues :
    (c : Cmd) → IsValue c.client_ip → AllValues ((codes "ret", print_int c.ret) ∷ members c)
unfolding all_plain
members-AllValues c h = (
  key-IsValue (codes "ret") refl,
  print_int-IsValue c.ret,
  (
    key-IsValue (codes "type") refl,
    print_int-IsValue c.type,
    (
      key-IsValue (codes "index") refl,
      print_int-IsValue c.index,
      (
        key-IsValue (codes "serialno") refl,
        print_int-IsValue c.svc_serial_no,
        (
          key-IsValue (codes "cmd") refl,
          print_int-IsValue c.cmd,
          (
            key-IsValue (codes "fd") refl,
            print_int-IsValue c.fd,
            (
              key-IsValue (codes "family") refl,
              print_int-IsValue c.family,
              (
                key-IsValue (codes "cliIp") refl,
                h,
                (key-IsValue (codes "cliPort") refl, print_int-IsValue c.port, tt),
              ),
            ),
          ),
        ),
      ),
    ),
  ),
)
