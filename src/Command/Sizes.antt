-- ===== src/Command/Sizes.antt =====
-- How long the data is that `InitCCmd` (netio/include/cmd_obj.h) keeps of a text.
use middlewar_test.Base.{
  ◌-◌, ◌≤◌, [], ◌∷◌, List, Bytes, length, length-append, Option-cases, inl, inr, arith,
}
use middlewar_test.Text.{str_pair_append_to_map}
use middlewar_test.Text.Dictionary.{Dict, lookup}
use middlewar_test.Text.Sizes.{size, size-erase-le, size-str_pair_append_to_map-le}
use middlewar_test.Command.{Cmd, new_cmd, c_str, take_param, take_params, join_pairs, init_ccmd}
use middlewar_test.Command.Fields.{Field, fields, take_fields}

length-join_pairs-le : (m : Dict) → length (join_pairs m) ≤ size m - 1
unfolding join_pairs
length-join_pairs-le [] = omega arith
length-join_pairs-le ((k, v) ∷ []) = omega (arith, length-append k (b'=' ∷ v))
length-join_pairs-le ((k, v) ∷ p ∷ m) =
    simp length-append (omega (arith, length-join_pairs-le (p ∷ m)))

size-take_param-le :
    (k : Bytes) (put : Bytes → Cmd → Cmd) (m : Dict) (c : Cmd)
    → size (take_param k put (m, c)).0 ≤ size m
unfolding take_param
size-take_param-le k put m c = elim (Option-cases (lookup k m)) [
  | inl e ↦ rw (e, take_param) (omega arith)
  | inr (v, e) ↦ rw (e, take_param) (size-erase-le k m)
]

size-take_fields-le :
    (fs : List Field) (m : Dict) (c : Cmd) → size (take_fields fs (m, c)).0 ≤ size m
unfolding take_fields
size-take_fields-le [] m c = omega arith
size-take_fields-le ((k, put) ∷ fs) m c =
    let (m', c') = take_param k put (m, c) in
    omega (arith, size-take_fields-le fs m' c', size-take_param-le k put m c)

length-c_str-le : (s : Bytes) → length (c_str s) ≤ length s
unfolding c_str
length-c_str-le [] = omega arith
length-c_str-le (c ∷ s) = ground (arith, length-c_str-le s)

-- The data is no longer than the text that it was read from.
pub length-init_ccmd-le : (text : Bytes) → length (init_ccmd new_cmd text).payload ≤ length text
unfolding init_ccmd take_params take_fields
length-init_ccmd-le text =
    let m = str_pair_append_to_map (c_str text) [] in
    omega (
      arith,
      length-join_pairs-le (take_fields fields (m, new_cmd)).0,
      size-take_fields-le fields m new_cmd,
      size-str_pair_append_to_map-le (c_str text) [],
      length-c_str-le text,
    )
