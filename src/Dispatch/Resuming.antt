-- ===== src/Dispatch/Resuming.antt =====
-- How a response finds the service that waits for it (netio/src/service_dispatcher.cpp).
use middlewar_test.Base.{
  ℕ, ◌≡◌, refl, ap, ◌∙◌, Option, some, [], ◌∷◌, ◌==◌, ◌>>=◌, Bool-cases, inl, inr, pos, ◌==ℤ◌,
  IntMap, erase_key, find_key, key_count, arith,
}
use middlewar_test.Command.{Cmd}
use middlewar_test.Dispatch.{Code, Service, switch_to, wake}
use middlewar_test.Dispatch.Waking.{wake_hit, wake_miss, go_on}

module _ (code : Code) where
  open code use {Saved, World, start, resume}

  -- The test of a command's number against a key.
  number_is : (c : Cmd) (n k : ℕ) → c.svc_serial_no ≡ pos n → (c.svc_serial_no ==ℤ pos k) ≡ (k == n)
  number_is c n k e = ap (λ n. n ==ℤ pos k) e ∙ ground arith

  -- No service waits under the number of the command.
  pub wake_idle :
      (m : IntMap (Service Saved)) (c : Cmd) (w : World) (found : Option (Service Saved)) (n : ℕ)
      → c.svc_serial_no ≡ pos n
      → key_count n m ≡ 0
      → wake code m c w found ≡ some (m, c, w, found)
  unfolding wake key_count
  wake_idle [] c w found n e h = refl
  wake_idle ((k, s) ∷ m) c w found n e h = elim (Bool-cases (k == n)) [
    | inl b ↦ ground (arith, b, h)
    | inr b ↦
        wake_miss code k s m c w found (number_is c n k e ∙ b)
        ∙ ap (λ o. o >>= go_on code k s) (wake_idle m c w found n e (ground (arith, b, h)))
  ]

  -- The service that waits under the number of the command runs, and no other one does if the number
  -- is 0 then: what the search finds is this service, and the rest of the map is as it was.
  pub wake_one :
      (m : IntMap (Service Saved)) (c c' : Cmd) (w w' : World) (found : Option (Service Saved))
      (i : ℕ) (s s' : Service Saved)
      → c.svc_serial_no ≡ pos i
      → find_key i m ≡ some s
      → switch_to code s c w ≡ some (s', c', w')
      → c'.svc_serial_no ≡ pos 0
      → key_count 0 m ≡ 0
      → (m' : IntMap (Service Saved)) × (wake code m c w found ≡ some (m', c', w', some s'))
        × (erase_key i m' ≡ erase_key i m)
  unfolding find_key key_count erase_key
  wake_one [] c c' w w' found i s s' e f g z h = cc
  wake_one ((k, t) ∷ m) c c' w w' found i s s' e f g z h = elim (Bool-cases (k == i)) [
    | inl b ↦
        let at : t ≡ s = ground (arith, b, f) in
        let idle = wake_idle m c' w' (some s') 0 z (ground (arith, h)) in
        (
          (k, s') ∷ m,
          wake_hit code k t m c w found (number_is c i k e ∙ b)
              ∙ rw (at, g) (ap (λ o. o >>= go_on code k s') idle),
          ground (arith, b),
        )
    | inr b ↦
        let (m', p, q) =
          wake_one m c c' w w' found i s s' e (ground (arith, b, f)) g z (ground (arith, h)) in
        (
          (k, t) ∷ m',
          wake_miss code k t m c w found (number_is c i k e ∙ b) ∙ ap (λ o. o >>= go_on code k t) p,
          ground (arith, b, q),
        )
  ]
