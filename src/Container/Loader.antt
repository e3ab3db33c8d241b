-- ===== src/Container/Loader.antt =====
-- `CServiceLoader` (netio/include/service_loader.h, netio/src/service_loader.cpp): the libraries of
-- the services, and their factories. What `dlopen`, `dlsym` and the library's own function answer is
-- an argument. Handles are numbers.
use middlewar_test.Base.{
  ℕ, ◌≡◌, refl, Option, none, some, List, [], ◌∷◌, map, ◌==◌, if◌then◌else◌, ℤ, pos, negsuc, IntMap,
  find_key, assign, find_key-assign, inl, arith, ◌∙◌, ap, ==_refl, ◌⊎◌,
}

abbrev pub open_dll_failed : ℤ
open_dll_failed = pos 8

-- A factory is what it makes.
pub record Loader (F : Type 0) : Type 0 where
  pub handlers : IntMap ℕ
  pub factories : IntMap F

abbrev pub new_loader : {F : Type 0} → Loader F
new_loader = record { handlers = []; factories = [] }

-- The answers for one library: its handle, and its factory if the symbol is found.
pub record Library (F : Type 0) : Type 0 where
  pub handle : Option ℕ
  pub factory : Option F

abbrev pub IsAmong : ℕ → List ℕ → Type 0
IsAmong h [] = ⊥
IsAmong h (x ∷ xs) = (x ≡ h) ⊎ IsAmong h xs

assigned_closed : (k h : ℕ) (m : IntMap ℕ) → IsAmong h (map (λ (p : ℕ × ℕ). p.1) (assign k h m))
unfolding assign
assigned_closed k h [] = inl refl
assigned_closed k h ((j, x) ∷ m) = ground (arith, assigned_closed k h m)

module _ {F : Type 0} where
  -- `LoadSercie_i`. No code (`none`): the function ends without a `return`.
  unfoldable pub load_service : Loader F → ℕ → Library F → Option ℤ × Loader F
  load_service l k lib = elim lib.handle [
    | none ↦ (some open_dll_failed, l)
    | some h ↦ elim lib.factory [
      | none ↦ (some open_dll_failed, l)
      | some f ↦
          (none, record { handlers = assign k h l.handlers; factories = assign k f l.factories })
    ]
  ]

  -- `LoadServices` over the commands' keys: the codes are not looked at.
  unfoldable pub load_services : Loader F → List (ℕ × Library F) → ℤ × Loader F
  load_services l [] = (pos 0, l)
  load_services l ((k, lib) ∷ libs) = load_services (load_service l k lib).1 libs

  -- `CleanServices`: what is closed, and the loader. The factories stay.
  unfoldable pub clean_services : Loader F → List ℕ × Loader F
  clean_services l = (map (λ (p : ℕ × ℕ). p.1) l.handlers, record l { handlers = [] })

  unfoldable pub get_service_factory : Loader F → ℕ → ℤ × Option F
  get_service_factory l k = elim (find_key k l.factories) [
    | some f ↦ (pos 0, some f)
    | none ↦ (negsuc 0, none)
  ]

  -- The factory of a library, if it is loaded without an error.
  abbrev pub provided : Library F → Option F
  provided lib = elim lib.handle [ none ↦ none | some h ↦ lib.factory ]

  -- The factory that was loaded last for the key `j`, or `before`.
  abbrev pub loaded_last : ℕ → List (ℕ × Library F) → Option F → Option F
  loaded_last j [] before = before
  loaded_last j ((k, lib) ∷ libs) before =
      loaded_last j libs
        (elim (provided lib) [ none ↦ before | some f ↦ if k == j then some f else before ])

  load_one :
      (l : Loader F) (j k : ℕ) (lib : Library F)
      → find_key j (load_service l k lib).1.factories ≡ (elim (provided lib) [
        | none ↦ find_key j l.factories
        | some f ↦ if k == j then some f else find_key j l.factories
      ])
  load_one l j k lib = by_answers lib.handle lib.factory
    where
      by_answers :
          (handle : Option ℕ) (factory : Option F)
          → let lib' : Library F = record { handle = handle; factory = factory } in
            find_key j (load_service l k lib').1.factories ≡ (elim (provided lib') [
              | none ↦ find_key j l.factories
              | some f ↦ if k == j then some f else find_key j l.factories
            ])
      by_answers none factory = unfold load_service in refl
      by_answers (some h) none = unfold load_service in refl
      by_answers (some h) (some f) = unfold load_service in find_key-assign j k f l.factories

  load_all :
      (l : Loader F) (j : ℕ) (libs : List (ℕ × Library F))
      → find_key j (load_services l libs).1.factories ≡ loaded_last j libs (find_key j l.factories)
  unfolding load_services
  load_all l j [] = refl
  load_all l j ((k, lib) ∷ libs) =
      load_all (load_service l k lib).1 j libs ∙ ap (loaded_last j libs) (load_one l j k lib)

  -- After `LoadServices` a command's factory is the one of the last library that was loaded for it
  -- without an error; a library that fails changes nothing, and where none was loaded the code is -1.
  pub get-load_services :
      (j : ℕ) (libs : List (ℕ × Library F))
      → get_service_factory (load_services new_loader libs).1 j
        ≡ (elim (loaded_last j libs none) [ some f ↦ (pos 0, some f) | none ↦ (negsuc 0, none) ])
  unfolding get_service_factory find_key
  get-load_services j libs = rw (load_all new_loader j libs, get_service_factory) refl

  -- `CleanServices` closes a library that was loaded, and its factory is still handed out.
  pub factory_stale :
      (l : Loader F) (k h : ℕ) (f : F)
      → let l1 = (load_service l k (record { handle = some h; factory = some f })).1 in
        IsAmong h (clean_services l1).0
        × ((clean_services l1).1.handlers ≡ [])
        × (get_service_factory (clean_services l1).1 k ≡ (pos 0, some f))
  unfolding load_service clean_services get_service_factory
  factory_stale l k h f = (
    assigned_closed k h l.handlers,
    refl,
    rw (find_key-assign k k f l.factories, ==_refl k, get_service_factory) refl,
  )
