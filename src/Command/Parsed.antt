-- ===== src/Command/Parsed.antt =====
-- `InitCCmd` (netio/include/cmd_obj.h) on any text: what it reads is what `ToString` writes of it.
use middlewar_test.Base.{
  ℕ, zero, suc, ℤ, IsInt, subst, set, ◌≡◌, refl, sym, List, [], ◌∷◌, map, Bytes, Option-cases, inl,
  inr, to_int-IsInt, arith,
}
use middlewar_test.Text.{str_pair_append_to_map}
use middlewar_test.Text.Dictionary.{Dict, lookup}
use middlewar_test.Text.Dictionary.Laws.{IsAbsent, IsAbsent-erase}
use middlewar_test.Text.Splitting.{IsFree}
use middlewar_test.Text.Pairs.{IsValue, IsPlain-IsValue}
use middlewar_test.Text.Parsed.{
  IsParsed, erase-IsParsed, lookup-IsAbsent, lookup-IsValue, IsAbsent-erased,
  str_pair_append_to_map-IsParsed,
}
use middlewar_test.Command.{
  Cmd, new_cmd, c_str, take_param, int_param, take_params, init_ccmd, to_string,
}
use middlewar_test.Command.Number.{atoll}
use middlewar_test.Command.Fields.{Field, fields, take_fields, AreAbsent}
use middlewar_test.Command.RoundTrip.{AreInts, init_ccmd-to_string}
use middlewar_test.Command.Buffer.{IsReadable}

-- The members of a message that are numbers.
abbrev numbers : Cmd → List ℤ
numbers c = c.ret ∷ c.type ∷ c.cmd ∷ c.fd ∷ c.index ∷ c.svc_serial_no ∷ c.family ∷ c.port ∷ []

abbrev AllInts : List ℤ → Type 0
AllInts [] = Unit
AllInts (z ∷ zs) = IsInt z × AllInts zs

AllInts-set : (zs : List ℤ) (i : ℕ) (z : ℤ) → IsInt z → AllInts zs → AllInts (set zs i z)
AllInts-set [] i z h g = tt
AllInts-set (y ∷ zs) zero z h (g, gs) = (h, gs)
AllInts-set (y ∷ zs) (suc i) z h (g, gs) = (g, AllInts-set zs i z h gs)

-- A message whose members are read back.
abbrev IsRead : Cmd → Type 0
IsRead c = IsValue c.client_ip × AllInts (numbers c)

abbrev Keeps : (Bytes → Cmd → Cmd) → Type 0
Keeps put = (v : Bytes) (c : Cmd) → IsValue v → IsRead c → IsRead (put v c)

number_set :
    (put : Bytes → Cmd → Cmd) (i : ℕ)
    → ((v : Bytes) (c : Cmd)
        → ((put v c).client_ip ≡ c.client_ip)
          × ((put v c).payload ≡ c.payload)
          × (numbers (put v c) ≡ set (numbers c) i (int_param v)))
    → Keeps put
unfolding int_param
number_set put i e v c g (a, h) = (
  subst IsValue (sym (e v c).0) a,
  subst AllInts (sym (e v c).2)
      (AllInts-set (numbers c) i (int_param v) (to_int-IsInt (atoll v)) h),
)

abbrev AllKeep : List Field → Type 0
AllKeep [] = Unit
AllKeep ((k, put) ∷ fs) = Keeps put × AllKeep fs

fields-AllKeep : AllKeep fields
fields-AllKeep = (
  number_set _ 0 (λ v c. (refl, refl, refl)),
  (
    number_set _ 1 (λ v c. (refl, refl, refl)),
    (
      number_set _ 2 (λ v c. (refl, refl, refl)),
      (
        number_set _ 3 (λ v c. (refl, refl, refl)),
        (
          number_set _ 4 (λ v c. (refl, refl, refl)),
          (
            number_set _ 5 (λ v c. (refl, refl, refl)),
            (
              number_set _ 6 (λ v c. (refl, refl, refl)),
              (number_set _ 7 (λ v c. (refl, refl, refl)), (λ v c g (a, h). (g, h), tt)),
            ),
          ),
        ),
      ),
    ),
  ),
)

-- One member is taken from the pairs.
module _ (k : Bytes) (put : Bytes → Cmd → Cmd) (m : Dict) (c : Cmd) where
  taken-IsParsed : IsParsed m → IsParsed (take_param k put (m, c)).0
  unfolding take_param
  taken-IsParsed p = elim (Option-cases (lookup k m)) [
    | inl e ↦ rw (e, take_param) p
    | inr (v, e) ↦ rw (e, take_param) (erase-IsParsed k m p)
  ]

  taken-IsAbsent : IsParsed m → IsAbsent k (take_param k put (m, c)).0
  unfolding take_param
  taken-IsAbsent p = elim (Option-cases (lookup k m)) [
    | inl e ↦ rw (e, take_param) (lookup-IsAbsent k m e)
    | inr (v, e) ↦ rw (e, take_param) (IsAbsent-erased k m p.sorted)
  ]

  taken_others : (j : Bytes) → IsAbsent j m → IsAbsent j (take_param k put (m, c)).0
  unfolding take_param
  taken_others j h = elim (Option-cases (lookup k m)) [
    | inl e ↦ rw (e, take_param) h
    | inr (v, e) ↦ rw (e, take_param) (IsAbsent-erase j k m h)
  ]

  taken-IsRead : Keeps put → IsParsed m → IsRead c → IsRead (take_param k put (m, c)).1
  unfolding take_param
  taken-IsRead keeps p h = elim (Option-cases (lookup k m)) [
    | inl e ↦ rw (e, take_param) h
    | inr (v, e) ↦ rw (e, take_param) (keeps v c (lookup-IsValue k m p.plain e) h)
  ]

left-IsAbsent :
    (j : Bytes) (fs : List Field) (m : Dict) (c : Cmd)
    → IsAbsent j m
    → IsAbsent j (take_fields fs (m, c)).0
unfolding take_fields
left-IsAbsent j [] m c h = h
left-IsAbsent j ((k, put) ∷ fs) m c h =
    left-IsAbsent j fs (take_param k put (m, c)).0 (take_param k put (m, c)).1
      (taken_others k put m c j h)

left-IsPayload :
    (fs : List Field) (m : Dict) (c : Cmd)
    → IsParsed m
    → IsParsed (take_fields fs (m, c)).0
      × AreAbsent (map (λ (f : Field). f.0) fs) (take_fields fs (m, c)).0
unfolding take_fields
left-IsPayload [] m c p = (p, tt)
left-IsPayload ((k, put) ∷ fs) m c p =
    let (m', c') = take_param k put (m, c) in
    let (q, absent) = left-IsPayload fs m' c' (taken-IsParsed k put m c p) in
    (q, (left-IsAbsent k fs m' c' (taken-IsAbsent k put m c p), absent))

left-IsRead :
    (fs : List Field) (m : Dict) (c : Cmd)
    → AllKeep fs
    → IsParsed m
    → IsRead c
    → IsRead (take_fields fs (m, c)).1
unfolding take_fields
left-IsRead [] m c k p h = h
left-IsRead ((k, put) ∷ fs) m c (keeps, more) p h =
    let (m', c') = take_param k put (m, c) in
    left-IsRead fs m' c' more (taken-IsParsed k put m c p) (taken-IsRead k put m c keeps p h)

c_str-IsFree-zero : (s : Bytes) → IsFree 0 (c_str s)
unfolding c_str
c_str-IsFree-zero [] = tt
c_str-IsFree-zero (c ∷ s) = ground (arith, c_str-IsFree-zero s)

-- The pairs that `InitCCmd` leaves of a text.
abbrev pub left_pairs : Bytes → Dict
left_pairs text = (take_params (str_pair_append_to_map (c_str text) [], new_cmd)).0

numbers-AreInts : (c : Cmd) → AllInts (numbers c) → AreInts c
numbers-AreInts c (r, (t, (k, (f, (i, (s, (a, (p, _)))))))) = record {
  ret_int = r;
  type_int = t;
  cmd_int = k;
  fd_int = f;
  index_int = i;
  serial_int = s;
  family_int = a;
  port_int = p;
}

new-IsRead : IsRead new_cmd
new-IsRead = (IsPlain-IsValue [] tt, ground arith)

-- Whatever the text, the message that `InitCCmd` reads from it on a new object can be written and
-- read back: its numbers are an `int`; its address, and the keys and values of the pairs that are
-- left, have no zero and no separator, and blanks only within; these pairs are in the order of their
-- keys, and none of them is a member's.
pub read-IsReadable : (text : Bytes) → IsReadable (init_ccmd new_cmd text) (left_pairs text)
unfolding init_ccmd take_params take_fields
read-IsReadable text =
    let m = str_pair_append_to_map (c_str text) [] in
    let p : IsParsed m =
      str_pair_append_to_map-IsParsed (c_str text) [] (c_str-IsFree-zero text)
        (record { sorted = tt; plain = tt }) in
    let (q, absent) = left-IsPayload fields m new_cmd p in
    let (address, ints) = left-IsRead fields m new_cmd fields-AllKeep p new-IsRead in
    record {
      ints = numbers-AreInts (init_ccmd new_cmd text) ints;
      address = address;
      data_pairs = record { sorted = q.sorted; plain = q.plain; foreign = absent };
      data_text = refl;
    }

-- What `InitCCmd` reads from any text on a new object is what it reads from the text that `ToString`
-- writes of it.
pub init_ccmd_again :
    (text : Bytes) → init_ccmd new_cmd (to_string (init_ccmd new_cmd text)) ≡ init_ccmd new_cmd text
init_ccmd_again text =
    let r = read-IsReadable text in
    init_ccmd-to_string (init_ccmd new_cmd text) (left_pairs text) r.ints r.address r.data_pairs
      r.data_text
