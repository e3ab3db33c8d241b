-- ===== src/Text/Dictionary/Order.antt =====
-- The order of the keys of the map of netio/include/string_helper.h and netio/include/cmd_obj.h:
-- `std::string` is compared byte by byte.
use middlewar_test.Base.{◌≡◌, refl, true, false, [], ◌∷◌, Bytes, bytes_eq, arith}
use middlewar_test.Text.Dictionary.{key_lt}

pub key_lt_irrefl : (a : Bytes) → key_lt a a ≡ false
unfolding key_lt
key_lt_irrefl [] = refl
key_lt_irrefl (x ∷ a) = ground (arith, key_lt_irrefl a)

pub key_lt-asym : (a b : Bytes) → key_lt a b ≡ true → key_lt b a ≡ false
unfolding key_lt
key_lt-asym [] [] h = refl
key_lt-asym [] (y ∷ b) h = refl
key_lt-asym (x ∷ a) [] h = cc
key_lt-asym (x ∷ a) (y ∷ b) h = ground (arith, key_lt-asym a b)

pub key_lt_trans : (a b c : Bytes) → key_lt a b ≡ true → key_lt b c ≡ true → key_lt a c ≡ true
unfolding key_lt
key_lt_trans [] [] c h g = g
key_lt_trans [] (y ∷ b) [] h g = cc
key_lt_trans [] (y ∷ b) (z ∷ c) h g = refl
key_lt_trans (x ∷ a) [] c h g = cc
key_lt_trans (x ∷ a) (y ∷ b) [] h g = cc
key_lt_trans (x ∷ a) (y ∷ b) (z ∷ c) h g = ground (arith, key_lt_trans a b c)

pub key_lt-differs : (a b : Bytes) → key_lt a b ≡ true → bytes_eq a b ≡ false
unfolding key_lt bytes_eq
key_lt-differs [] [] h = cc
key_lt-differs [] (y ∷ b) h = refl
key_lt-differs (x ∷ a) [] h = cc
key_lt-differs (x ∷ a) (y ∷ b) h = ground (arith, key_lt-differs a b)

pub bytes_eq_sym : (a b : Bytes) → bytes_eq a b ≡ bytes_eq b a
unfolding bytes_eq
bytes_eq_sym [] [] = refl
bytes_eq_sym [] (y ∷ b) = refl
bytes_eq_sym (x ∷ a) [] = refl
bytes_eq_sym (x ∷ a) (y ∷ b) = ground (arith, bytes_eq_sym a b)

pub key_lt-total : (a b : Bytes) → bytes_eq b a ≡ false → key_lt a b ≡ false → key_lt b a ≡ true
unfolding key_lt bytes_eq
key_lt-total [] [] h g = cc
key_lt-total [] (y ∷ b) h g = cc
key_lt-total (x ∷ a) [] h g = refl
key_lt-total (x ∷ a) (y ∷ b) h g = ground (arith, key_lt-total a b)
