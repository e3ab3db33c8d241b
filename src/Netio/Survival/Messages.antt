-- ===== src/Netio/Survival/Messages.antt =====
-- The messages on which `OnEventFire` of the front process stops
-- (netio/src/netio_user_event_handler.cpp).
use middlewar_test.Base.{
  ℕ, ◌≡◌, refl, Bool, true, ◌&&◌, Option, some, [], Bytes, ltb, ◌<◌, take, negsuc, ◌-◌, ◌==◌,
  if◌then◌else◌, ◌>>=◌, length, ℤ, pos, Bool-cases, inl, inr, arith, Decided, stops, goes_on,
  map-Decided, assert_that, assert_that-Decided, Decided-by, >>=-always, if-Decided,
}
use middlewar_test.Command.{
  new_cmd, init_ccmd, c_str, take_params, take_param, int_param, join_pairs,
}
use middlewar_test.Text.{
  split_loop, find_sep, split_string, trim, append_parts, append_pair, str_pair_append_to_map,
}
use middlewar_test.Text.Dictionary.{lookup, insert, erase}
use middlewar_test.Queue.{
  is_terminated, Ipc, MsgQueue, Received, got, recv_error, no_msg, buf_size, max_msg_size, response,
  get_msg, recv_msg_failed,
}
use middlewar_test.Queue.Laws.{get_msg_nothing, get_msg_error, get_msg_text}
use middlewar_test.Reactor.{tcp_server_send, add_to_watch_list}
use middlewar_test.Netio.{Netio, index_of, response_item, set_msg, on_event_fire}
use middlewar_test.Netio.Survival.{Serves, is_index, message_passes}
use middlewar_test.Netio.Survival.Handlers.{add_to_watch_list-Decided}

index_of-Decided : (z : ℤ) → Decided (λ n. n < 1024) (is_index z) (index_of 1024 z)
unfolding index_of
index_of-Decided (pos n) = elim (Bool-cases (ltb n 1024)) [
  | inl h ↦ rw h (goes_on (ground (arith, h)))
  | inr h ↦ rw h stops
]
index_of-Decided (negsuc n) = stops

-- Where no message could be taken, the handler goes on with an empty command, for the descriptor 0.
no_text : (is_terminated [] && is_index (init_ccmd new_cmd []).fd) ≡ true
unfolding is_terminated init_ccmd take_params take_param int_param c_str str_pair_append_to_map
    split_string trim append_parts append_pair lookup insert erase split_loop join_pairs find_sep
no_text = refl

module _ (ipc : Ipc) (ntoa : ℕ → Bytes) (inet_addr : Bytes → ℕ) where
  open ipc use {Kernel}

  -- What is done with a message once it is there.
  abbrev handle : Netio Kernel → Bool → ℕ × ℕ × Bytes × Kernel → Option (Netio Kernel)
  handle s ok (code, len, text, kernel') =
      if code == 0 && len == 0
      then some (record s { kernel = kernel' })
      else assert_that (is_terminated text) do
        let c = init_ccmd new_cmd text
        fd ← index_of 1024 c.fd
        let r = set_msg s.reactor fd (take (buf_size - 1) (c_str c.payload))
        (code', r') ←
            add_to_watch_list ntoa r fd tcp_server_send (some (response_item inet_addr fd c)) true
              ok
        some (record s { kernel = kernel'; reactor = r' })

  handle-Decided :
      (s : Netio Kernel) (ok : Bool) (code len : ℕ) (text : Bytes) (kernel' : Kernel)
      → Serves s
      → Decided Serves
          (if code == 0 && len == 0
            then true
            else is_terminated text && is_index (init_ccmd new_cmd text).fd)
          (handle s ok (code, len, text, kernel'))
  handle-Decided s ok code len text kernel' v =
      let c = init_ccmd new_cmd text in
      if-Decided (code == 0 && len == 0) (goes_on v) (
        assert_that-Decided (is_terminated text) (
          >>=-always (index_of-Decided c.fd) λ fd n.
            map-Decided (λ (code', r'). record s { kernel = kernel'; reactor = r' })
              (Decided-by (ground arith) (
                add_to_watch_list-Decided ntoa
                  (set_msg s.reactor fd (take (buf_size - 1) (c_str c.payload))) fd tcp_server_send
                  (some (response_item inet_addr fd c)) true ok))
              λ x u. v))

  received :
      (s : Netio Kernel) (ok : Bool)
      → Serves s
      → (q : MsgQueue) (a : Received) → (ipc.msgrcv q.id max_msg_size response s.kernel).0 ≡ a
      → Decided Serves (message_passes a) (get_msg ipc q response 0 s.kernel >>= handle s ok)
  received s ok v q no_msg e = rw (get_msg_nothing ipc q response 0 s.kernel e) (goes_on v)
  received s ok v q recv_error e =
      rw (get_msg_error ipc q response 0 s.kernel e)
        (Decided-by no_text (handle-Decided s ok recv_msg_failed 0 [] _ v))
  received s ok v q (got text) e = elim (Bool-cases (ltb buf_size (length text))) [
    | inl h ↦ rw (h, get_msg_text ipc q response 0 s.kernel text e) (rw h stops)
    | inr h ↦
        rw (h, get_msg_text ipc q response 0 s.kernel text e)
          (rw h (handle-Decided s ok 0 (length text) text _ v))
  ]

  pub on_event_fire-Decided :
      (s : Netio Kernel) (ok : Bool)
      → (v : Serves s)
      → Decided Serves
          (message_passes (ipc.msgrcv v.responses.0.id max_msg_size response s.kernel).0)
          (on_event_fire ipc ntoa inet_addr s ok)
  unfolding on_event_fire
  on_event_fire-Decided s ok v =
      let q = v.responses.0 in
      rw (v.responses.1) (received s ok v q (ipc.msgrcv q.id max_msg_size response s.kernel).0 refl)
