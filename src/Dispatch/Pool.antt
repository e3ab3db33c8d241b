-- ===== src/Dispatch/Pool.antt =====
-- The two pools of services in netio/src/service_dispatcher.cpp.
use middlewar_test.Base.{
  ℕ, suc, ◌+◌, ◌≤◌, ◌≡◌, refl, ap, subst, ◌∙◌, Option, none, some, [], ◌∷◌, ◌==◌, if◌then◌else◌,
  ◌>>=◌, Bool-cases, inl, inr, ◌==ℤ◌, IntMap, assign, erase_key, key_count, key_count-assign,
  key_count-erase, arith,
}
use middlewar_test.Command.{Cmd}
use middlewar_test.Dispatch.{
  unfinish_task_ret_flag, Code, Context, fresh, suspended, ended, Service, new_service, Dispatcher,
  add_svc_handler, reset_context, left, run_from, switch_to, settle,
}

-- In how many places the service `k` stands.
abbrev pub places : {S : Type 0} → ℕ → Dispatcher S → ℕ
places k d = key_count k d.stateless + key_count k d.stateful

-- Services stand under their own index.
abbrev pub Keyed : {S : Type 0} → IntMap (Service S) → Type 0
Keyed [] = Unit
Keyed ((k, s) ∷ m) = (s.index ≡ k) × Keyed m

-- Every free service has a context that has not run.
abbrev pub AllFresh : {S : Type 0} → IntMap (Service S) → Type 0
AllFresh [] = Unit
AllFresh ((k, s) ∷ m) = (s.context ≡ fresh) × AllFresh m

pub record IsSound {S : Type 0} (d : Dispatcher S) : Type 0 where
  pub once : (k : ℕ) → places k d ≤ 1
  pub free_keyed : Keyed d.stateless
  pub busy_keyed : Keyed d.stateful
  pub free_fresh : AllFresh d.stateless

module _ {S : Type 0} where
  Keyed-assign : (s : Service S) (m : IntMap (Service S)) → Keyed m → Keyed (assign s.index s m)
  unfolding assign
  Keyed-assign s [] h = (refl, tt)
  Keyed-assign s ((k, t) ∷ m) h = ground (arith, Keyed-assign s m h.1)

  Keyed-erase : (k : ℕ) (m : IntMap (Service S)) → Keyed m → Keyed (erase_key k m)
  unfolding erase_key
  Keyed-erase k [] h = tt
  Keyed-erase k ((j, t) ∷ m) h = ground (arith, Keyed-erase k m h.1)

  pub AllFresh-assign :
      (s : Service S) (m : IntMap (Service S))
      → s.context ≡ fresh
      → AllFresh m
      → AllFresh (assign s.index s m)
  unfolding assign
  AllFresh-assign s [] e h = (e, tt)
  AllFresh-assign s ((k, t) ∷ m) e h = ground (arith, AllFresh-assign s m e h.1)

-- `AddSvcHandler` of a service that is in neither pool keeps the pools sound.
pub add_svc_handler-IsSound :
    {S : Type 0} (d : Dispatcher S) (i : ℕ)
    → IsSound d
    → places i d ≡ 0
    → IsSound (add_svc_handler d (new_service i))
unfolding add_svc_handler new_service
add_svc_handler-IsSound d i v h = record {
  once = λ k. ground (arith, v.once k, key_count-assign k i (new_service i) d.stateless);
  free_keyed = Keyed-assign (new_service i) d.stateless v.free_keyed;
  busy_keyed = v.busy_keyed;
  free_fresh = AllFresh-assign (new_service i) d.stateless refl v.free_fresh;
}

module _ (code : Code) where
  open code use {Saved, World, start, resume}

  -- What a dispatch keeps: soundness, and the place of every service.
  abbrev pub Keeps : Dispatcher Saved → Dispatcher Saved → Type 0
  Keeps d d' = IsSound d' × ((k : ℕ) → places k d' ≡ places k d)

  left-index :
      (s : Service Saved) (r : Cmd × World × Option Saved) → (left code s r).0.index ≡ s.index
  unfolding left
  left-index s (c, w, none) = refl
  left-index s (c, w, some v) = refl

  ran :
      (s s' : Service Saved) (m : Option (Cmd × World × Option Saved)) {c' : Cmd} {w' : World}
      → (m >>= λ r. some (left code s r)) ≡ some (s', c', w')
      → s'.index ≡ s.index
  ran s s' none e = cc
  ran s s' (some r) e = ground (arith, left-index s r)

  run_from-index :
      (x : Context Saved) (s s' : Service Saved) (c : Cmd) (w : World) {c' : Cmd} {w' : World}
      → run_from code x s c w ≡ some (s', c', w')
      → s'.index ≡ s.index
  unfolding run_from
  run_from-index fresh s s' c w e = ran s s' (start s.index c w) e
  run_from-index (suspended v) s s' c w e = ran s s' (resume s.index v c w) e
  run_from-index ended s s' c w e = cc

  pub switch_to-index :
      (s s' : Service Saved) (c : Cmd) (w : World) {c' : Cmd} {w' : World}
      → switch_to code s c w ≡ some (s', c', w')
      → s'.index ≡ s.index
  unfolding switch_to
  switch_to-index s s' c w e = run_from-index s.context s s' c w e

  pub settle-Keeps :
      (d : Dispatcher Saved) (s : Service Saved)
      → IsSound d
      → 1 ≤ key_count s.index d.stateful
      → Keeps d (settle code d s)
  unfolding settle reset_context
  settle-Keeps d s v h = elim (Bool-cases (d.cur_cmd.ret ==ℤ unfinish_task_ret_flag)) [
    | inl e ↦ rw e (v, λ k. refl)
    | inr e ↦ rw e (
      record {
        once = λ k. omega (arith, same k, v.once k);
        free_keyed = Keyed-assign (reset_context s) d.stateless v.free_keyed;
        busy_keyed = Keyed-erase s.index d.stateful v.busy_keyed;
        free_fresh = AllFresh-assign (reset_context s) d.stateless refl v.free_fresh;
      },
      same,
    )
  ]
    where
      same :
          (k : ℕ)
          → key_count k (assign s.index (reset_context s) d.stateless)
              + key_count k (erase_key s.index d.stateful)
            ≡ places k d
      same k = ground (
        arith,
        v.once s.index,
        v.once k,
        key_count-assign k s.index (reset_context s) d.stateless,
        key_count-erase k s.index d.stateful,
      )

  -- The dispatcher once the first free service has run.
  abbrev pub started :
      Dispatcher Saved → Service Saved → IntMap (Service Saved) → Cmd → Dispatcher Saved
  started d s' free c' = record d {
    cur_cmd = c';
    stateful = assign s'.index s' d.stateful;
    stateless = free;
  }

  module _ (d : Dispatcher Saved) (k : ℕ) (s s' : Service Saved) (free : IntMap (Service Saved))
      (c' : Cmd) (v : IsSound d) (e : d.stateless ≡ (k, s) ∷ free) (i : s'.index ≡ s.index) where
    first_key : s'.index ≡ k
    first_key = i ∙ (subst Keyed e v.free_keyed).0

    free_count :
        (j : ℕ)
        → key_count j d.stateless ≡ (if k == j then suc (key_count j free) else key_count j free)
    unfolding key_count
    free_count j = ap (key_count j) e

    not_busy : key_count s'.index d.stateful ≡ 0
    not_busy = ground (arith, first_key, free_count s'.index, v.once s'.index)

    places-started : (j : ℕ) → places j (started d s' free c') ≡ places j d
    places-started j =
        ground (arith, first_key, not_busy, free_count j, key_count-assign j s'.index s' d.stateful)

    started-IsSound : IsSound (started d s' free c')
    started-IsSound = record {
      once = λ j. omega (arith, places-started j, v.once j);
      free_keyed = (subst Keyed e v.free_keyed).1;
      busy_keyed = Keyed-assign s' d.stateful v.busy_keyed;
      free_fresh = (subst AllFresh e v.free_fresh).1;
    }

    pub request-Keeps : Keeps d (settle code (started d s' free c') s')
    request-Keeps =
        let (sound, same) =
          settle-Keeps (started d s' free c') s' started-IsSound
            (ground (arith, not_busy, key_count-assign s'.index s'.index s' d.stateful)) in
        (sound, λ j. same j ∙ places-started j)
