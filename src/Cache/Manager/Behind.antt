-- ===== src/Cache/Manager/Behind.antt =====
-- `ModToUint` of netio/include/mod_hash_v1.h reads nine bytes of every text key, also behind the end
-- of a shorter one.
use middlewar_test.Base.{
  ℕ, ◌+◌, ◌*◌, ◌^◌, ◌<◌, ltb, ◌&&◌, Bool, true, ◌%◌, ◌≤◌, ◌≡◌, ◌≢◌, refl, ap, ◌∙◌, false, some, [],
  ◌∷◌, ◌++◌, Bytes, if◌then◌else◌, ◌>>=◌, length, length-append, take_all, ℤ, arith,
}
use middlewar_test.Cache.Hash.{success, text, Table, hashed_bytes, hash_value, sum_chars, add_char}
use middlewar_test.Cache.Hash.Laws.{slot}
use middlewar_test.Cache.Manager.{Section, Manager, section_of, set, get}
use middlewar_test.Cache.Manager.Laws.{AllReady, shares, shares-some, get-set}

sum_chars-append : (s u : Bytes) (h : ℕ) → sum_chars h (s ++ u) ≡ sum_chars (sum_chars h s) u
unfolding sum_chars
sum_chars-append [] u h = refl
sum_chars-append (c ∷ s) u h = sum_chars-append s u (add_char h c)

hashed_all : (s : Bytes) (c : ℕ) → length s ≤ 7 → hashed_bytes s (c ∷ []) ≡ s ++ 0 ∷ c ∷ []
hashed_all s c h = take_all 9 (s ++ 0 ∷ c ∷ []) (omega (arith, length-append s (0 ∷ c ∷ [])))

hash_behind :
    (s : Bytes) (c : ℕ)
    → length s ≤ 7
    → hash_value (text s (c ∷ [])) ≡ add_char (add_char (sum_chars 0 s) 0) c
unfolding hash_value sum_chars
hash_behind s c h = ap (sum_chars 0) (hashed_all s c h) ∙ sum_chars-append s (0 ∷ c ∷ []) 0

-- Every byte is an ASCII character.
abbrev pub is_ascii : Bytes → Bool
is_ascii [] = true
is_ascii (c ∷ s) = ltb c 128 && is_ascii s

sum_chars-ascii :
    (s : Bytes) (h : ℕ)
    → is_ascii s ≡ true
    → h + length s * 127 < 2 ^ 64
    → sum_chars h s ≤ h + length s * 127
unfolding sum_chars add_char
sum_chars-ascii [] h a b = ground arith
sum_chars-ascii (c ∷ s) h a b =
    let small : c < 128 = ground (arith, a) in
    let sum : add_char h c ≡ h + c = ground (arith, small, b) in
    omega (
      arith,
      sum,
      small,
      b,
      sum_chars-ascii s (add_char h c) (ground (arith, a)) (omega (arith, sum, small, b)),
    )

next_differs :
    (h x y : ℕ)
    → h ≤ 1000
    → x < 128
    → y < 128
    → x % 100 ≢ y % 100
    → add_char (add_char h 0) x % 100 ≢ add_char (add_char h 0) y % 100
unfolding add_char
next_differs h x y b p q d = ground arith

slot_behind :
    (t : Table) (s : Bytes) (x y : ℕ)
    → t.buck_nums ≡ 100
    → length s ≤ 7
    → is_ascii s ≡ true
    → x < 128
    → y < 128
    → x % 100 ≢ y % 100
    → slot t (text s (x ∷ [])) ≢ slot t (text s (y ∷ []))
slot_behind t s x y e h a p q d =
    rw (e, hash_behind s x h, hash_behind s y h)
      (next_differs (sum_chars 0 s) x y (omega (arith, h, sum_chars-ascii s 0 a (omega (arith, h))))
        p q d)

-- For every ASCII key of at most seven bytes in a table of a hundred buckets, and any two ASCII
-- bytes that differ modulo a hundred: a value that is set while one of them stands behind the key's
-- end is not seen by a `Get` of the same key while the other does. Zeros stand behind these bytes.
pub set_not_seen :
    (m : Manager) (s : Section) (k : Bytes) (x y : ℕ) (n w : ℤ)
    → AllReady m
    → section_of k ≡ some s
    → (m.table s).buck_nums ≡ 100
    → length k ≤ 7
    → is_ascii k ≡ true
    → x < 128
    → y < 128
    → x % 100 ≢ y % 100
    → (set m k (x ∷ []) n >>= λ (c, m'). get m' k (y ∷ []) w) ≡ get m k (y ∷ []) w
set_not_seen m s k x y n w v e size short a p q d =
    get-set m v k (x ∷ []) e n k (y ∷ []) w
    ∙ ap (λ b. if b then some (success, n) else get m k (y ∷ []) w) apart
  where
    apart : shares m s k (x ∷ []) k (y ∷ []) ≡ false
    apart = ground (
      arith,
      shares-some m s k (x ∷ []) k (y ∷ []) e,
      slot_behind (m.table s) k x y size short a p q d,
    )
