-- ===== src/Command/Fields.antt =====
-- How `InitCCmd` takes the members out of the pairs of a text (netio/include/cmd_obj.h).
use middlewar_test.Base.{
  ◌∙◌, List, Option-cases, inl, inr, ◌≡◌, refl, ap, [], ◌∷◌, map, Bytes, codes, bytes_eq,
}
use middlewar_test.Text.Dictionary.{Dict, key_lt, lookup, insert, erase}
use middlewar_test.Text.Dictionary.Laws.{
  IsSorted, IsAbsent, IsSorted-insert, IsSorted-erase, insert_all, lookup-insert_all,
  erase-insert_all,
}
use middlewar_test.Text.Pairs.{AllValues}
use middlewar_test.Command.{Cmd, new_cmd, take_param, int_param, take_params}
use middlewar_test.Command.Number.{print_int}
use middlewar_test.Command.Written.{members}

-- None of the keys is among those of the map.
abbrev pub AreAbsent : List Bytes → Dict → Type 0
AreAbsent [] ps = Unit
AreAbsent (k ∷ ks) ps = IsAbsent k ps × AreAbsent ks ps

-- A member's name, with what its value does to the message.
abbrev pub Field : Type 0
Field = Bytes × (Bytes → Cmd → Cmd)

-- The members in the order in which `InitCCmd` takes them.
abbrev pub fields : List Field
fields =
    (codes "ret", λ v c. record c { ret = int_param v })
    ∷ (codes "type", λ v c. record c { type = int_param v })
    ∷ (codes "cmd", λ v c. record c { cmd = int_param v })
    ∷ (codes "fd", λ v c. record c { fd = int_param v })
    ∷ (codes "index", λ v c. record c { index = int_param v })
    ∷ (codes "serialno", λ v c. record c { svc_serial_no = int_param v })
    ∷ (codes "family", λ v c. record c { family = int_param v })
    ∷ (codes "cliPort", λ v c. record c { port = int_param v })
    ∷ (codes "cliIp", λ v c. record c { client_ip = v })
    ∷ []

-- What the data of a message may be: the text of pairs in the order of their keys, none of them a
-- member's name, without separators, and with blanks only within the values.
pub record IsPayload (ps : Dict) : Type 0 where
  pub sorted : IsSorted ps
  pub plain : AllValues ps
  pub foreign : AreAbsent (map (λ (f : Field). f.0) fields) ps

-- One member after the other.
unfoldable pub take_fields : List Field → Dict × Cmd → Dict × Cmd
take_fields [] s = s
take_fields ((k, put) ∷ fs) s = take_fields fs (take_param k put s)

-- Pairs with other keys do not matter to the search for a member, and stay.
take_param-insert_all :
    (key : Bytes) (put : Bytes → Cmd → Cmd) (ps m : Dict) (c : Cmd)
    → IsSorted m
    → IsAbsent key ps
    → take_param key put (insert_all ps m, c)
      ≡ (insert_all ps (take_param key put (m, c)).0, (take_param key put (m, c)).1)
unfolding take_param
take_param-insert_all key put ps m c s h = elim (Option-cases (lookup key m)) [
  | inl e ↦ rw (lookup-insert_all key ps m h, e, take_param)
  | inr (v, e) ↦
      rw (lookup-insert_all key ps m h, e, take_param) (rw (erase-insert_all key ps m s h) refl)
]

take_param-IsSorted :
    (key : Bytes) (put : Bytes → Cmd → Cmd) (m : Dict) (c : Cmd)
    → IsSorted m
    → IsSorted (take_param key put (m, c)).0
unfolding take_param
take_param-IsSorted key put m c s = elim (Option-cases (lookup key m)) [
  | inl e ↦ rw (e, take_param) s
  | inr (v, e) ↦ rw (e, take_param) (IsSorted-erase key m s)
]

take_fields-insert_all :
    (fs : List Field) (ps m : Dict) (c : Cmd)
    → IsSorted m
    → AreAbsent (map (λ (f : Field). f.0) fs) ps
    → take_fields fs (insert_all ps m, c)
      ≡ (insert_all ps (take_fields fs (m, c)).0, (take_fields fs (m, c)).1)
unfolding take_fields
take_fields-insert_all [] ps m c s h = refl
take_fields-insert_all ((k, put) ∷ fs) ps m c s (h, hs) =
    ap (take_fields fs) (take_param-insert_all k put ps m c s h)
    ∙ take_fields-insert_all fs ps (take_param k put (m, c)).0 (take_param k put (m, c)).1
        (take_param-IsSorted k put m c s) hs

-- The map of the members of a message, in the order of the keys.
abbrev pub member_map : Cmd → Dict
member_map c = insert_all ((codes "ret", print_int c.ret) ∷ members c) []

insert_all-IsSorted : (ps m : Dict) → IsSorted m → IsSorted (insert_all ps m)
unfolding insert_all
insert_all-IsSorted [] m s = s
insert_all-IsSorted ((k, v) ∷ ps) m s =
    insert_all-IsSorted ps (insert k v m) (IsSorted-insert k v m s)

-- The members' values as they are in the text.
abbrev pub read_back : Cmd → Bytes → Cmd
read_back c payload = record {
  index = int_param (print_int c.index);
  svc_serial_no = int_param (print_int c.svc_serial_no);
  fd = int_param (print_int c.fd);
  cmd = int_param (print_int c.cmd);
  family = int_param (print_int c.family);
  client_ip = c.client_ip;
  port = int_param (print_int c.port);
  payload = payload;
  ret = int_param (print_int c.ret);
  type = int_param (print_int c.type);
}

pub take_params-members :
    (c : Cmd) (ps : Dict)
    → IsPayload ps
    → take_params (insert_all ps (member_map c), new_cmd) ≡ (insert_all ps [], read_back c [])
unfolding take_params take_fields take_param insert_all insert erase lookup bytes_eq key_lt
take_params-members c ps p =
    take_fields-insert_all fields ps (member_map c) new_cmd
      (insert_all-IsSorted ((codes "ret", print_int c.ret) ∷ members c) [] tt) p.foreign
