-- ===== src/Base/Results.antt =====
-- What is known of a result that may be missing: `Ensures`, what holds of it if it is there, and
-- `Decided`, when it is there.
use mathlib.Core.Path.{◌≡◌, refl, sym, ap, subst, ◌∙◌}
use mathlib.Core.Bool.{Bool, true, false, ◌&&◌}
use mathlib.Core.Option.{Option, none, some}
use middlewar_test.Base.Tests.{◌>>=◌, assert_that, if◌then◌else◌}

-- What holds of a result, if there is one.
pub data Ensures {ℓ κ} {A : Type ℓ} (P : A → Type κ) : Option A → Type (ℓ ⊔ κ) where
  fault : Ensures P none
  result : {a : A} → P a → Ensures P (some a)

pub Ensures-some {ℓ κ} :
    {A : Type ℓ} {P : A → Type κ} {m : Option A} {a : A} → Ensures P m → m ≡ some a → P a
Ensures-some fault e = cc
Ensures-some {P = P} {a = a} (result {a = b} h) e = let same : b ≡ a = cc in subst P same h

module _ {ℓ κ ι} {A : Type ℓ} {B : Type κ} {P : B → Type ι} where
  pub >>=-Ensures :
      (m : Option A) {f : A → Option B}
      → ((a : A) → m ≡ some a → Ensures P (f a))
      → Ensures P (m >>= f)
  >>=-Ensures none h = fault
  >>=-Ensures (some a) h = h a refl

module _ {ℓ κ} {A : Type ℓ} {P : A → Type κ} where
  pub assert_that-Ensures : (b : Bool) {x : Option A} → Ensures P x → Ensures P (assert_that b x)
  assert_that-Ensures true h = h
  assert_that-Ensures false h = fault

  pub if-Ensures :
      (b : Bool) {x y : Option A} → Ensures P x → Ensures P y → Ensures P (if b then x else y)
  if-Ensures true h g = h
  if-Ensures false h g = g

  pub Ensures-map {ι} :
      {Q : A → Type ι} {m : Option A} → ((a : A) → P a → Q a) → Ensures P m → Ensures Q m
  Ensures-map h fault = fault
  Ensures-map h (result {a = a} p) = result (h a p)

abbrev pub is_some {ℓ} : {A : Type ℓ} → Option A → Bool
is_some none = false
is_some (some a) = true

-- A result is there exactly if a test says so, and `P` holds of it then.
pub data Decided {ℓ κ} {A : Type ℓ} (P : A → Type κ) : Bool → Option A → Type (ℓ ⊔ κ) where
  stops : Decided P false none
  goes_on : {a : A} → P a → Decided P true (some a)

module _ {ℓ κ} {A : Type ℓ} {P : A → Type κ} where
  pub Decided-none : {b : Bool} {m : Option A} → b ≡ false → m ≡ none → Decided P b m
  Decided-none e f = rw (e, f) stops

  pub Decided-some : {b : Bool} {m : Option A} {a : A} → b ≡ true → m ≡ some a → P a → Decided P b m
  Decided-some e f p = rw (e, f) (goes_on p)

  pub Decided-by : {b c : Bool} {m : Option A} → b ≡ c → Decided P b m → Decided P c m
  Decided-by {m = m} e h = subst (λ b. Decided P b m) e h

  pub if-Decided :
      (t : Bool) {b c : Bool} {x y : Option A}
      → Decided P b x
      → Decided P c y
      → Decided P (if t then b else c) (if t then x else y)
  if-Decided true h g = h
  if-Decided false h g = g

  pub either-Decided :
      (t : Bool) {b : Bool} {x y : Option A}
      → Decided P b x
      → Decided P b y
      → Decided P b (if t then x else y)
  either-Decided true h g = h
  either-Decided false h g = g

  pub when-Decided : (t : Bool) (a : A) → P a → Decided P t (if t then some a else none)
  when-Decided true a p = goes_on p
  when-Decided false a p = stops

  pub and-Decided :
      (t : Bool) {b : Bool} {m : Option A}
      → Decided P b m
      → Decided P (t && b) (if t then m else none)
  and-Decided true h = h
  and-Decided false h = stops

  pub assert_that-Decided :
      (t : Bool) {b : Bool} {m : Option A} → Decided P b m → Decided P (t && b) (assert_that t m)
  assert_that-Decided true h = h
  assert_that-Decided false h = stops

  -- A step that does not fail behind one that may.
  pub >>=-always {ι} :
      {B : Type ι} {Q : B → Type κ} {b : Bool} {m : Option B} {f : B → Option A}
      → Decided Q b m
      → ((x : B) → Q x → Decided P true (f x))
      → Decided P b (m >>= f)
  >>=-always stops h = stops
  >>=-always (goes_on q) h = h _ q

  pub map-Decided {ι} :
      {B : Type ι} {Q : B → Type κ} {b : Bool} {m : Option B} (f : B → A)
      → Decided Q b m
      → ((x : B) → Q x → P (f x))
      → Decided P b (m >>= λ x. some (f x))
  map-Decided f stops h = stops
  map-Decided f (goes_on q) h = goes_on (h _ q)

  pub >>=-Decided {ι} :
      {B : Type ι} {Q : B → Type κ} {b c : Bool} {m : Option B} {f : B → Option A}
      → Decided Q b m
      → ((x : B) → Q x → Decided P c (f x))
      → Decided P (b && c) (m >>= f)
  >>=-Decided stops h = stops
  >>=-Decided (goes_on q) h = h _ q

  pub Decided-true : {m : Option A} → Decided P true m → (a : A) × (m ≡ some a) × P a
  Decided-true d = true_case d refl
    where
      true_case :
          {b : Bool} {m : Option A} → Decided P b m → b ≡ true → (a : A) × (m ≡ some a) × P a
      true_case stops e = cc
      true_case (goes_on {a = a} p) e = (a, refl, p)

  pub Decided-is_some : {b : Bool} {m : Option A} → Decided P b m → is_some m ≡ b
  Decided-is_some stops = refl
  Decided-is_some (goes_on p) = refl

  pub Decided-Ensures : {b : Bool} {m : Option A} → Decided P b m → Ensures P m
  Decided-Ensures stops = fault
  Decided-Ensures (goes_on p) = result p

  pub Decided-false : {m : Option A} → Decided P false m → m ≡ none
  Decided-false d = false_case d refl
    where
      false_case : {b : Bool} {m : Option A} → Decided P b m → b ≡ false → m ≡ none
      false_case stops e = refl
      false_case (goes_on p) e = cc

-- A test of a result, passed if there is none.
abbrev pub for_result {ℓ} : {A : Type ℓ} → Option A → (A → Bool) → Bool
for_result none test = true
for_result (some a) test = test a

pub for_result-some {ℓ} :
    {A : Type ℓ} {m : Option A} {a : A} (test : A → Bool)
    → m ≡ some a
    → for_result m test ≡ true
    → test a ≡ true
for_result-some test e h = sym (ap (λ n. for_result n test) e) ∙ h

pub and_true : (a b : Bool) → (a && b) ≡ true → (a ≡ true) × (b ≡ true)
and_true true b h = (refl, h)
and_true false b h = cc
