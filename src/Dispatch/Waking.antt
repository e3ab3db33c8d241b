-- ===== src/Dispatch/Waking.antt =====
-- The search for the waiting service in netio/src/service_dispatcher.cpp.
use middlewar_test.Base.{
  ℕ, ◌≤◌, ◌≡◌, refl, sym, subst, ◌∙◌, true, false, Option, some, [], ◌∷◌, ◌>>=◌, bind_some,
  Bool-cases, inl, inr, ◌⊎◌, pos, ◌==ℤ◌, IntMap, key_count, arith,
}
use mathlib.Core.Option.{some-injective}
use middlewar_test.Command.{Cmd}
use middlewar_test.Dispatch.{Code, Service, switch_to, wake}
use middlewar_test.Dispatch.Pool.{Keyed, switch_to-index}

module _ (code : Code) where
  open code use {Saved, World, start, resume}

  abbrev pub Woken : Type 0
  Woken = IntMap (Service Saved) × Cmd × World × Option (Service Saved)

  -- What the search of the waiting services keeps, and that it finds one of them or none.
  abbrev pub Wakes : IntMap (Service Saved) → Option (Service Saved) → Woken → Type 0
  Wakes m found (m', c', w', found') =
      ((k : ℕ) → key_count k m' ≡ key_count k m)
      × Keyed m'
      × ((found' ≡ found) ⊎ ((t : Service Saved) × (found' ≡ some t) × (1 ≤ key_count t.index m)))

  abbrev pub go_on_of : ℕ → Service Saved → Woken → Woken
  go_on_of k s (m, c, w, found) = ((k, s) ∷ m, c, w, found)

  abbrev pub go_on : ℕ → Service Saved → Woken → Option Woken
  go_on k s (m, c, w, found) = some ((k, s) ∷ m, c, w, found)

  pub wake_hit :
      (k : ℕ) (s : Service Saved) (m : IntMap (Service Saved)) (c : Cmd) (w : World)
      (found : Option (Service Saved))
      → (c.svc_serial_no ==ℤ pos k) ≡ true
      → wake code ((k, s) ∷ m) c w found
        ≡ (switch_to code s c w >>= λ (s', c', w'). wake code m c' w' (some s') >>= go_on k s')
  unfolding wake
  wake_hit k s m c w found t = rw (t, wake)

  pub wake_miss :
      (k : ℕ) (s : Service Saved) (m : IntMap (Service Saved)) (c : Cmd) (w : World)
      (found : Option (Service Saved))
      → (c.svc_serial_no ==ℤ pos k) ≡ false
      → wake code ((k, s) ∷ m) c w found ≡ (wake code m c w found >>= go_on k s)
  unfolding wake
  wake_miss k s m c w found t = rw (t, wake)

  Wakes-go_on :
      (k : ℕ) (s s' : Service Saved) (m : IntMap (Service Saved))
      (found found1 : Option (Service Saved)) (r r' : Woken)
      → s'.index ≡ k
      → (found1 ≡ found) ⊎ (found1 ≡ some s')
      → Wakes m found1 r
      → go_on k s' r ≡ some r'
      → Wakes ((k, s) ∷ m) found r'
  unfolding key_count
  Wakes-go_on k s s' m found found1 (m1, c1, w1, f1) r' i was (same, keyed, one) e =
      let p : go_on_of k s' (m1, c1, w1, f1) ≡ r' = some-injective _ _ e in
      subst (Wakes ((k, s) ∷ m) found) p (λ j. ground (arith, same j), (i, keyed), which was one)
    where
      which :
          (found1 ≡ found) ⊎ (found1 ≡ some s')
          → (f1 ≡ found1) ⊎ ((t : Service Saved) × (f1 ≡ some t) × (1 ≤ key_count t.index m))
          → (f1 ≡ found)
            ⊎ ((t : Service Saved) × (f1 ≡ some t) × (1 ≤ key_count t.index ((k, s) ∷ m)))
      which (inl q) (inl p) = inl (p ∙ q)
      which (inr q) (inl p) = inr (s', p ∙ q, ground arith)
      which _ (inr (t, p, h)) = inr (t, p, ground arith)

  pub wake_lem :
      (m : IntMap (Service Saved)) (c : Cmd) (w : World) (found : Option (Service Saved))
      (r : Woken)
      → Keyed m
      → wake code m c w found ≡ some r
      → Wakes m found r
  unfolding wake
  wake_lem [] c w found r h e =
      let p : ([], c, w, found) ≡ r = some-injective _ _ e in
      subst (Wakes [] found) p (λ k. refl, tt, inl refl)
  wake_lem ((k, s) ∷ m) c w found r (i, h) e = elim (Bool-cases (c.svc_serial_no ==ℤ pos k)) [
    | inl t ↦
        let ((s', c', w'), f, g) =
          bind_some (switch_to code s c w)
            (λ (s', c', w'). wake code m c' w' (some s') >>= go_on k s')
            (sym (wake_hit k s m c w found t) ∙ e) in
        let (r1, f1, g1) = bind_some (wake code m c' w' (some s')) (go_on k s') g in
        Wakes-go_on k s s' m found (some s') r1 r (switch_to-index code s s' c w f ∙ i) (inr refl)
          (wake_lem m c' w' (some s') r1 h f1) g1
    | inr t ↦
        let (r1, f1, g1) =
          bind_some (wake code m c w found) (go_on k s) (sym (wake_miss k s m c w found t) ∙ e) in
        Wakes-go_on k s s m found found r1 r i (inl refl) (wake_lem m c w found r1 h f1) g1
  ]
