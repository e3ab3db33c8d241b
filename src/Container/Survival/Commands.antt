-- ===== src/Container/Survival/Commands.antt =====
-- On which commands a container of `CSvcTest` (netio/src/svc_test.cpp) stops
-- (netio/src/container_user_event_handler.cpp, netio/src/service_dispatcher.cpp).
use middlewar_test.Base.{
  ℕ, ◌≡◌, refl, ap, subst, ◌∙◌, true, none, some, [], ◌∷◌, Bytes, codes, if◌then◌else◌, ◌>>=◌, ℤ,
  pos, ◌==ℤ◌, IntMap, assign, erase_key, Bool-cases, ◌⊎◌, inl, inr, arith, Decided, goes_on,
  Decided-none, Decided-some, map-Decided, if-Decided, Decided-by, >>=-Decided,
}
use middlewar_test.Cache.Manager.{section_of}
use middlewar_test.Cache.Manager.Laws.{incr-AllReady}
use middlewar_test.Command.{Cmd}
use middlewar_test.Queue.{Ipc, response}
use middlewar_test.Netio.Survival.{IsServing}
use middlewar_test.Dispatch.{
  fresh, ended, Service, new_service, Dispatcher, unfinish_task_ret_flag, wake, switch_to, settle,
  reset_context, dispatch, dispatch_request, dispatch_response,
}
use middlewar_test.Dispatch.Pool.{AllFresh, AllFresh-assign}
use middlewar_test.Dispatch.Waking.{wake_hit, wake_miss}
use middlewar_test.Container.{World, Container, code_of, marked, reply, process_msg}
use middlewar_test.Container.Services.{NoStack, count_run, counter_key, svc_test}
use middlewar_test.Container.Answering.{answer_to, executed}
use middlewar_test.Container.Dialogue.{count_run_lem}
use middlewar_test.Container.Survival.{
  AllEnded, IsRunning, Runs, is_answerable, says_unfinished, command_passes,
}
use middlewar_test.Container.Survival.Replies.{reply-Decided}

AllEnded-assign :
    (k : ℕ) (s : Service NoStack) (m : IntMap (Service NoStack))
    → s.context ≡ ended
    → AllEnded m
    → AllEnded (assign k s m)
unfolding assign
AllEnded-assign k s [] e h = (e, tt)
AllEnded-assign k s ((j, t) ∷ m) e h = ground (arith, AllEnded-assign k s m e h.1)

AllEnded-erase : (k : ℕ) (m : IntMap (Service NoStack)) → AllEnded m → AllEnded (erase_key k m)
unfolding erase_key
AllEnded-erase k [] h = tt
AllEnded-erase k ((j, t) ∷ m) h = ground (arith, AllEnded-erase k m h.1)

module _ (ipc : Ipc) (behind : Bytes) where
  open ipc use {Kernel}

  ended_stops :
      (s : Service NoStack) (c : Cmd) (w : World Kernel)
      → s.context ≡ ended
      → switch_to (code_of (svc_test ipc behind)) s c w ≡ none
  unfolding switch_to
  ended_stops s c w e = rw e refl

  -- A response finds no service that could go on with it.
  wake-none :
      (m : IntMap (Service NoStack)) (c : Cmd) (w : World Kernel)
      → AllEnded m
      → let r = wake (code_of (svc_test ipc behind)) m c w none in
        (r ≡ none) ⊎ (r ≡ some (m, c, w, none))
  unfolding wake
  wake-none [] c w h = inr refl
  wake-none ((k, s) ∷ m) c w (e, h) = elim (Bool-cases (c.svc_serial_no ==ℤ pos k)) [
    | inl b ↦
        inl (
          wake_hit (code_of (svc_test ipc behind)) k s m c w none b ∙ rw (ended_stops s c w e) refl)
    | inr b ↦
        let miss = wake_miss (code_of (svc_test ipc behind)) k s m c w none b in
        elim (wake-none m c w h) [ inl p ↦ inl (miss ∙ rw p refl) | inr p ↦ inr (miss ∙ rw p refl) ]
  ]

  response_stops :
      (d : Dispatcher NoStack) (c : Cmd) (w : World Kernel)
      → AllEnded d.stateful
      → dispatch_response (code_of (svc_test ipc behind)) d c w ≡ none
  unfolding dispatch_response
  response_stops d c w h = elim (wake-none d.stateful c w h) [
    | inl p ↦ rw p refl
    | inr p ↦ rw p refl
  ]

  run_counted :
      (i : ℕ) (w : World Kernel)
      → IsServing w.queues w.cache
      → (w' : World Kernel) × (count_run behind (codes "c1_") i w ≡ some w')
        × IsServing w'.queues w'.cache
  unfolding section_of counter_key
  run_counted i w v =
      let (r, e, a) =
        incr-AllReady w.cache v.counts (counter_key (codes "c1_") i) behind refl (pos 1) in
      (
        record w { cache = r.1 },
        count_run_lem behind (codes "c1_") i w e,
        record { counts = a; responses = v.responses; first = v.first; second = v.second },
      )

  -- A free service runs to its end.
  run_ends :
      (s : Service NoStack) (c : Cmd) (w w' : World Kernel)
      → s.context ≡ fresh
      → count_run behind (codes "c1_") s.index w ≡ some w'
      → switch_to (code_of (svc_test ipc behind)) s c w
        ≡ some (record { index = s.index; context = ended }, answer_to ipc behind c, w')
  unfolding new_service
  run_ends s c w w' e f =
      ap
        (λ x.
          switch_to (code_of (svc_test ipc behind)) (record { index = s.index; context = x }) c w)
        e
      ∙ executed ipc behind s.index c w w' f

  settle-IsRunning :
      (d : Dispatcher NoStack) (s : Service NoStack) (w : World Kernel)
      → IsRunning d w
      → IsRunning (settle (code_of (svc_test ipc behind)) d s) w
  unfolding settle reset_context
  settle-IsRunning d s w v = elim (Bool-cases (d.cur_cmd.ret ==ℤ unfinish_task_ret_flag)) [
    | inl b ↦ rw b v
    | inr b ↦ rw b (record {
      serving = v.serving;
      free_fresh =
          AllFresh-assign (record { index = s.index; context = fresh }) d.stateless refl
            v.free_fresh;
      busy_ended = AllEnded-erase s.index d.stateful v.busy_ended;
    })
  ]

  abbrev Dispatched : Type 0
  Dispatched = ℤ × Cmd × Dispatcher NoStack × World Kernel

  -- What `Dispatch` of a request leaves: code, dispatcher and world, and whether a reply is due for it.
  abbrev IsDispatched : IntMap (Service NoStack) → Cmd → Dispatched → Type 0
  IsDispatched free c (r, c', d, w) =
      IsRunning d w
      × (c'.svc_serial_no ≡ c.svc_serial_no)
      × (c'.cmd ≡ c.cmd)
      × ((r ==ℤ unfinish_task_ret_flag) ≡ says_unfinished free c)

  request-Decided :
      (d : Dispatcher NoStack) (free : IntMap (Service NoStack)) (c : Cmd) (w : World Kernel)
      → d.stateless ≡ free
      → IsRunning d w
      → Decided
          (IsDispatched free c)
          true
          (dispatch_request (code_of (svc_test ipc behind)) d free c w)
  unfolding dispatch_request
  request-Decided d [] c w e v = goes_on (
    record { serving = v.serving; free_fresh = v.free_fresh; busy_ended = v.busy_ended },
    refl,
    refl,
    refl,
  )
  request-Decided d ((i, s) ∷ free) c w e v =
      let (not_run, free_fresh) : AllFresh ((i, s) ∷ free) = subst AllFresh e v.free_fresh in
      let (w', f, serving) = run_counted s.index w v.serving in
      let over : Service NoStack = record { index = s.index; context = ended } in
      let d' : Dispatcher NoStack = record d {
        cur_cmd = answer_to ipc behind c;
        stateful = assign s.index over d.stateful;
        stateless = free;
      } in
      Decided-some
        {a = (c.ret, answer_to ipc behind c, settle (code_of (svc_test ipc behind)) d' over, w')}
        refl (rw (run_ends s c w w' not_run f) refl)
        (
          settle-IsRunning d' over w' (record {
            serving = serving;
            free_fresh = free_fresh;
            busy_ended = AllEnded-assign s.index over d.stateful refl v.busy_ended;
          }),
          refl,
          refl,
          refl,
        )

  -- The number and the command of a reply are those of the request.
  marked-answerable : (r : ℤ) (c : Cmd) → is_answerable (marked r c) ≡ is_answerable c
  unfolding marked
  marked-answerable r c = ground arith

  same_answerable :
      (c c' : Cmd)
      → c'.svc_serial_no ≡ c.svc_serial_no
      → c'.cmd ≡ c.cmd
      → is_answerable c' ≡ is_answerable c
  same_answerable c c' n m = rw (n, m) refl

  replied-Decided :
      (s : Container Kernel NoStack) (free : IntMap (Service NoStack)) (c : Cmd) (x : Dispatched)
      → IsDispatched free c x
      → Decided Runs (if says_unfinished free c then true else is_answerable c) (
          let s' = record s { dispatcher = x.2; world = x.3 } in
          if x.0 ==ℤ unfinish_task_ret_flag
          then some s'
          else (reply ipc s.pid (marked x.0 x.1) x.3 >>= λ w'. some (record s' { world = w' })))
  replied-Decided s free c (r, c', d, w) (v, n, m, e) =
      let same : is_answerable (marked r c') ≡ is_answerable c =
        marked-answerable r c' ∙ same_answerable c c' n m in
      Decided-by
        (ap (λ b. if b then true else is_answerable (marked r c')) e
          ∙ ap (λ a. if says_unfinished free c then true else a) same)
        (if-Decided (r ==ℤ unfinish_task_ret_flag) (goes_on v) (
          map-Decided (λ w'. record s { dispatcher = d; world = w' })
            (reply-Decided ipc s.pid d (marked r c') w v) λ w' v'. v'))

  pub process_msg-Decided :
      (s : Container Kernel NoStack) (c : Cmd)
      → Runs s
      → Decided Runs
          (command_passes s.dispatcher.stateless c)
          (process_msg ipc (svc_test ipc behind) s c)
  unfolding process_msg dispatch
  process_msg-Decided s c v = elim (Bool-cases (c.type ==ℤ response)) [
    | inl b ↦
        Decided-none (rw b refl) (rw (b, response_stops s.dispatcher c s.world v.busy_ended) refl)
    | inr b ↦ rw b (
        >>=-Decided (request-Decided s.dispatcher s.dispatcher.stateless c s.world refl v)
          (replied-Decided s s.dispatcher.stateless c))
  ]
