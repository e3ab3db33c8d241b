-- ===== src/Container/Main/Rounds.antt =====
-- What a round of a container process keeps (netio/src/container_user_event_handler.cpp).
use middlewar_test.Base.{
  assert_that-Ensures, ◌==◌, ℕ, zero, suc, ◌≡◌, refl, ◌∙◌, Option, none, some, Bytes, ℤ, pos, ◌==ℤ◌,
  Ensures, result, Ensures-some, >>=-Ensures, if-Ensures, Ensures-map,
}
use middlewar_test.Command.{Cmd, new_cmd, init_ccmd}
use middlewar_test.Queue.{is_terminated, Ipc, request, get_msg_queue, get_msg}
use middlewar_test.Dispatch.{dispatch, unfinish_task_ret_flag}
use middlewar_test.Dispatch.Pool.{places, IsSound}
use middlewar_test.Dispatch.Conservation.{dispatch-Keeps}
use middlewar_test.Container.{
  Container, Program, code_of, app_type, marked, reply, process_msg, receive, on_event_fire,
}
use middlewar_test.Container.Main.{event_rounds}

module _ (ipc : Ipc) where
  open ipc use {Kernel}

  module _ (p : Program Kernel) where
    -- What a round keeps: the services, in one place each, and the process's number and queue.
    pub record IsKept (s s' : Container Kernel p.Saved) : Type 0 where
      pub sound : IsSound s'.dispatcher
      pub same_places : (k : ℕ) → places k s'.dispatcher ≡ places k s.dispatcher
      pub same_key : s'.mq_key ≡ s.mq_key
      pub same_pid : s'.pid ≡ s.pid

    IsKept-trans : (s t u : Container Kernel p.Saved) → IsKept s t → IsKept t u → IsKept s u
    IsKept-trans s t u h g = record {
      sound = g.sound;
      same_places = λ k. g.same_places k ∙ h.same_places k;
      same_key = g.same_key ∙ h.same_key;
      same_pid = g.same_pid ∙ h.same_pid;
    }

    process_msg-IsKept :
        (s : Container Kernel p.Saved) (c : Cmd)
        → IsSound s.dispatcher
        → Ensures (IsKept s) (process_msg ipc p s c)
    unfolding process_msg
    process_msg-IsKept s c v =
        >>=-Ensures (dispatch (code_of p) s.dispatcher c s.world) λ (r, c', d, w) e.
          let (sound, same) = dispatch-Keeps (code_of p) s.dispatcher d c c' s.world w v e in
          if-Ensures (r ==ℤ unfinish_task_ret_flag)
            (result
              (record { sound = sound; same_places = same; same_key = refl; same_pid = refl }))
            (>>=-Ensures (reply ipc s.pid (marked r c') w) λ w' f.
              result
                (record { sound = sound; same_places = same; same_key = refl; same_pid = refl }))

    receive-IsKept :
        (s : Container Kernel p.Saved) (type : ℤ)
        → IsSound s.dispatcher
        → Ensures
            (λ (a : Option Bytes × Container Kernel p.Saved). IsKept s a.1)
            (receive ipc p s type)
    unfolding receive
    receive-IsKept s type v = >>=-Ensures (get_msg_queue s.world.queues s.mq_key).1 λ q e.
        >>=-Ensures (get_msg ipc q type 0 s.world.kernel) λ (code, len, text, kernel') f.
          let kept : IsKept s (record s { world = record s.world { kernel = kernel' } }) = record {
            sound = v;
            same_places = λ k. refl;
            same_key = refl;
            same_pid = refl;
          } in
          if-Ensures (len == 0) (result kept)
            (assert_that-Ensures (is_terminated text) (result kept))

    -- A message that was received, if there is one, or what is done otherwise.
    received-IsKept :
        (s s1 : Container Kernel p.Saved) (message : Option Bytes)
        (otherwise : Option (Container Kernel p.Saved))
        → IsKept s s1
        → Ensures (IsKept s) otherwise
        → Ensures (IsKept s) (elim message [
          | some text ↦ process_msg ipc p s1 (init_ccmd new_cmd text)
          | none ↦ otherwise
        ])
    received-IsKept s s1 none otherwise h g = g
    received-IsKept s s1 (some text) otherwise h g =
        Ensures-map (λ t k. IsKept-trans s s1 t h k)
          (process_msg-IsKept s1 (init_ccmd new_cmd text) h.sound)

    -- A round keeps all of it.
    pub on_event_fire-IsKept :
        (s : Container Kernel p.Saved)
        → IsSound s.dispatcher
        → Ensures (IsKept s) (on_event_fire ipc p s)
    unfolding on_event_fire
    on_event_fire-IsKept s v = >>=-Ensures (receive ipc p s request) λ (first, s1) e.
        let k1 : IsKept s s1 = Ensures-some (receive-IsKept s request v) e in
        received-IsKept s s1 first _ k1 (
          >>=-Ensures (receive ipc p s1 (app_type (pos s.pid))) λ (second, s2) f.
            let k2 : IsKept s1 s2 =
              Ensures-some (receive-IsKept s1 (app_type (pos s.pid)) k1.sound) f in
            let k : IsKept s s2 = IsKept-trans s s1 s2 k1 k2 in
            received-IsKept s s2 second _ k (result k))

    pub event_rounds-IsKept :
        (n : ℕ) (s : Container Kernel p.Saved)
        → IsSound s.dispatcher
        → Ensures (IsKept s) (event_rounds ipc p n s)
    unfolding event_rounds
    event_rounds-IsKept zero s v =
        result (record { sound = v; same_places = λ k. refl; same_key = refl; same_pid = refl })
    event_rounds-IsKept (suc n) s v = >>=-Ensures (on_event_fire ipc p s) λ s' e.
        let k : IsKept s s' = Ensures-some (on_event_fire-IsKept s v) e in
        Ensures-map (λ t h. IsKept-trans s s' t k h) (event_rounds-IsKept n s' k.sound)
