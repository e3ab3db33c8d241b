-- ===== src/Reactor/Setup/Invariant.antt =====
-- `Init` (netio/src/reactor.cpp) and the reactor's invariant.
use middlewar_test.Base.{
  ℕ, refl, Bool, true, false, not, Option, none, some, ◌==◌, ltb, if◌then◌else◌, Ensures, fault,
  result, if-Ensures, pos, Option-cases, inl, inr, [],
}
use middlewar_test.Reactor.{
  EventFlag, tcp_server_accept, udp_read, SockAddr, Reactor, max_epoll_event_num,
}
use middlewar_test.Reactor.Sane.{IsSane, set_sock-IsSane}
use middlewar_test.Reactor.Setup.{
  TcpCalls, UdpCalls, Done, EpollCreate, created, unsupported, create_failed, keep_item, fail_with,
  finish, tcp_steps, init_tcp_svr, udp_steps, init_usock_udp_svr, skip, after_ok, init,
  epoll_create_failed,
}

-- The reactor that a set-up routine leaves is sane, whatever its code.
abbrev Leaves : Option Done → Type 0
Leaves = Ensures (λ d. IsSane d.reactor)

finish-Leaves : (o : Option Reactor) → Ensures IsSane o → Leaves (finish o)
unfolding finish
finish-Leaves none h = fault
finish-Leaves (some r) (result h) = result h

keep_item-IsSane :
    (r : Reactor) (fd : ℕ) (flag : EventFlag) (addr : SockAddr)
    → IsSane r
    → Ensures IsSane (keep_item r fd flag addr)
unfolding keep_item
keep_item-IsSane r fd flag addr v =
    if-Ensures (ltb fd max_epoll_event_num) (result (set_sock-IsSane r fd _ (λ h. refl) v)) fault

fail_with-Leaves :
    (code fd : ℕ) (restored : Bool) (r : Reactor) → IsSane r → Leaves (fail_with code fd restored r)
unfolding fail_with
fail_with-Leaves code fd restored r v = result v

tcp_steps-Leaves :
    (k : TcpCalls) (r : Reactor) (fd : ℕ) (addr : SockAddr)
    → IsSane r
    → Leaves (tcp_steps k r fd addr)
unfolding tcp_steps
tcp_steps-Leaves k r fd addr v = if-Ensures (not k.tcp_reuse) (fail_with-Leaves _ fd true r v) (
    if-Ensures (not k.tcp_bind) (fail_with-Leaves _ fd true r v) (
      if-Ensures (not k.tcp_linger) (fail_with-Leaves _ fd true r v) (
        if-Ensures (not k.tcp_listen) (fail_with-Leaves _ fd true r v) (
          if-Ensures (not k.tcp_getfl) (fail_with-Leaves _ fd true r v) (
            if-Ensures (not k.tcp_setfl) (fail_with-Leaves _ fd true r v)
              (finish-Leaves _ (keep_item-IsSane r fd tcp_server_accept addr v)))))))

init_tcp_svr-Leaves :
    (k : TcpCalls) (r : Reactor) (addr : SockAddr) → IsSane r → Leaves (init_tcp_svr k r addr)
unfolding init_tcp_svr
init_tcp_svr-Leaves k r addr v = elim (Option-cases k.tcp_socket) [
  | inl e ↦ rw (e, init_tcp_svr) (result (record { covers = v.covers; named = v.named }))
  | inr (fd, e) ↦
      rw (e, init_tcp_svr)
        (tcp_steps-Leaves k (record r { svr_fd = pos fd }) fd addr
          (record { covers = v.covers; named = v.named }))
]

udp_steps-Leaves :
    (k : UdpCalls) (r : Reactor) (fd : ℕ) (addr : SockAddr)
    → IsSane r
    → Leaves (udp_steps k r fd addr)
unfolding udp_steps
udp_steps-Leaves k r fd addr v = if-Ensures (not k.udp_reuse) (fail_with-Leaves _ fd false r v) (
    if-Ensures (not k.udp_bind) (fail_with-Leaves _ fd false r v) (
      if-Ensures (not k.udp_getfl) (fail_with-Leaves _ fd true r v) (
        if-Ensures (not k.udp_setfl) (fail_with-Leaves _ fd true r v)
          (finish-Leaves _ (keep_item-IsSane r fd udp_read addr v)))))

init_usock_udp_svr-Leaves :
    (k : UdpCalls) (r : Reactor) (addr : SockAddr) → IsSane r → Leaves (init_usock_udp_svr k r addr)
unfolding init_usock_udp_svr
init_usock_udp_svr-Leaves k r addr v = elim (Option-cases k.udp_socket) [
  | inl e ↦ rw (e, init_usock_udp_svr) (result (record { covers = v.covers; named = v.named }))
  | inr (fd, e) ↦
      rw (e, init_usock_udp_svr)
        (udp_steps-Leaves k (record r { usock_fd = pos fd }) fd addr
          (record { covers = v.covers; named = v.named }))
]

skip-Leaves : (r : Reactor) → IsSane r → Leaves (skip r)
unfolding skip
skip-Leaves r v = result v

after_ok-Leaves :
    (o : Option Done) (k : Reactor → Option Done)
    → Leaves o
    → ((r : Reactor) → IsSane r → Leaves (k r))
    → Leaves (after_ok o k)
unfolding after_ok
after_ok-Leaves none k h g = fault
after_ok-Leaves (some d) k (result h) g = if-Ensures (d.code == 0) (g d.reactor h) (result h)

created-Leaves :
    (epoll : EpollCreate) (r : Reactor)
    → IsSane r
    → Leaves (elim epoll [
      | created ↦ skip r
      | unsupported ↦ none
      | create_failed ↦
          some (record { code = epoll_create_failed; closes = []; restored = true; reactor = r })
    ])
created-Leaves created r v = skip-Leaves r v
created-Leaves unsupported r v = fault
created-Leaves create_failed r v = result v

-- `Init` of a sane reactor leaves a sane one, also where it fails.
pub init-Leaves :
    (with_tcp with_usock : Bool) (tcp : TcpCalls) (udp : UdpCalls) (epoll : EpollCreate)
    (addr unset : SockAddr) (r : Reactor)
    → IsSane r
    → Ensures (λ d. IsSane d.reactor) (init with_tcp with_usock tcp udp epoll addr unset r)
unfolding init
init-Leaves with_tcp with_usock tcp udp epoll addr unset r v =
    after_ok-Leaves (if with_tcp then init_tcp_svr tcp r addr else skip r) _
      (if-Ensures with_tcp (init_tcp_svr-Leaves tcp r addr v) (skip-Leaves r v))
      λ r1 v1.
        after_ok-Leaves (if with_usock then init_usock_udp_svr udp r1 unset else skip r1) _
          (if-Ensures with_usock (init_usock_udp_svr-Leaves udp r1 unset v1) (skip-Leaves r1 v1))
          λ r2 v2. created-Leaves epoll r2 v2
