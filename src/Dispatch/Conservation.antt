-- ===== src/Dispatch/Conservation.antt =====
-- What a dispatch of netio/src/service_dispatcher.cpp keeps.
use middlewar_test.Base.{
  ℕ, ◌≤◌, ◌≡◌, refl, sym, subst, Option, none, some, [], ◌∷◌, ◌>>=◌, bind_some, Bool-cases, inl,
  inr, ℤ, ◌==ℤ◌, IntMap, key_count, arith,
}
use mathlib.Core.Option.{some-injective}
use middlewar_test.Command.{Cmd}
use middlewar_test.Queue.{response}
use middlewar_test.Dispatch.{
  no_free_svc_handler, Code, Service, Dispatcher, switch_to, wake, settle, dispatch,
  dispatch_request, dispatch_response,
}
use middlewar_test.Dispatch.Pool.{
  places, IsSound, Keeps, switch_to-index, settle-Keeps, started, request-Keeps,
}
use middlewar_test.Dispatch.Waking.{Wakes, wake_lem}

module _ (code : Code) where
  open code use {Saved, World, start, resume}

  -- The state once the search has found the service `s`.
  woken_Keeps :
      (d : Dispatcher Saved) (m : IntMap (Service Saved)) (c : Cmd) (w : World) (s : Service Saved)
      → IsSound d
      → Wakes code d.stateful none (m, c, w, some s)
      → Keeps code d (settle code (record d { cur_cmd = c; stateful = m }) s)
  woken_Keeps d m c w s v (same, keyed, inl e) = cc
  woken_Keeps d m c w s v (same, keyed, inr (t, e, h)) =
      let at : s ≡ t = some-injective _ _ e in
      let sound : IsSound (record d { cur_cmd = c; stateful = m }) = record {
        once = λ k. omega (arith, same k, v.once k);
        free_keyed = v.free_keyed;
        busy_keyed = keyed;
        free_fresh = v.free_fresh;
      } in
      let busy : 1 ≤ key_count s.index m =
        omega (arith, same s.index, subst (λ x. 1 ≤ key_count x.index d.stateful) (sym at) h) in
      let (done, places_same) =
        settle-Keeps code (record d { cur_cmd = c; stateful = m }) s sound busy in
      (done, λ k. omega (arith, places_same k, same k))

  abbrev Result : Type 0
  Result = ℤ × Cmd × Dispatcher Saved × World

  response_Keeps :
      (d : Dispatcher Saved) (c : Cmd) (w : World) (r : Result)
      → IsSound d
      → dispatch_response code d c w ≡ some r
      → Keeps code d r.2
  unfolding dispatch_response
  response_Keeps d c w r v e =
      let ((m, c1, w1, found), f, g) =
        bind_some (wake code d.stateful c w none)
          (λ (m, c1, w1, found). found >>= λ s. answered m c1 w1 s) e in
      let (s, f1, g1) = bind_some found (λ s. answered m c1 w1 s) g in
      let p : (c1.ret, c1, settle code (record d { cur_cmd = c1; stateful = m }) s, w1) ≡ r =
        some-injective _ _ g1 in
      let woken : Wakes code d.stateful none (m, c1, w1, some s) =
        subst (λ x. Wakes code d.stateful none (m, c1, w1, x)) f1
          (wake_lem code d.stateful c w none (m, c1, w1, found) v.busy_keyed f) in
      subst (λ (x : Result). Keeps code d x.2) p (woken_Keeps d m c1 w1 s v woken)
    where
      answered : IntMap (Service Saved) → Cmd → World → Service Saved → Option Result
      answered m c1 w1 s =
          some (c1.ret, c1, settle code (record d { cur_cmd = c1; stateful = m }) s, w1)

  request_Keeps :
      (d : Dispatcher Saved) (m : IntMap (Service Saved)) (c : Cmd) (w : World) (r : Result)
      → d.stateless ≡ m
      → IsSound d
      → dispatch_request code d m c w ≡ some r
      → Keeps code d r.2
  unfolding dispatch_request
  request_Keeps d [] c w r h v e =
      let p : (no_free_svc_handler, c, record d { cur_cmd = c }, w) ≡ r = some-injective _ _ e in
      let same : IsSound (record d { cur_cmd = c }) = record {
        once = v.once;
        free_keyed = v.free_keyed;
        busy_keyed = v.busy_keyed;
        free_fresh = v.free_fresh;
      } in
      subst (λ (x : Result). Keeps code d x.2) p (same, λ k. refl)
  request_Keeps d ((k, s) ∷ free) c w r h v e =
      let ((s', c1, w1), f, g) =
        bind_some (switch_to code s c w) (λ (s', c1, w1). answered s' c1 w1) e in
      let p : (c1.ret, c1, settle code (started code d s' free c1) s', w1) ≡ r =
        some-injective _ _ g in
      subst (λ (x : Result). Keeps code d x.2) p
        (request-Keeps code d k s s' free c1 v h (switch_to-index code s s' c w f))
    where
      answered : Service Saved → Cmd → World → Option Result
      answered s' c1 w1 = some (c1.ret, c1, settle code (started code d s' free c1) s', w1)

  -- No dispatch loses a service or makes one up: each stands in as many places after it as before,
  -- at most one, and the free ones are ready to be started.
  pub dispatch-Keeps :
      (d d' : Dispatcher Saved) (c c' : Cmd) (w w' : World) {r : ℤ}
      → IsSound d
      → dispatch code d c w ≡ some (r, c', d', w')
      → IsSound d' × ((k : ℕ) → places k d' ≡ places k d)
  unfolding dispatch
  dispatch-Keeps d d' c c' w w' {r = r} v e = elim (Bool-cases (c.type ==ℤ response)) [
    | inl t ↦ response_Keeps d c w (r, c', d', w') v (rw t at e)
    | inr t ↦ request_Keeps d d.stateless c w (r, c', d', w') refl v (rw t at e)
  ]
