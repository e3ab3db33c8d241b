-- ===== src/Reactor/Guard.antt =====
-- The check by which `AddToWatchList` of netio/src/reactor.cpp decides whether a response still has
-- its connection.
use middlewar_test.Base.{
  ℕ, ◌<◌, ◌≡◌, Bool, true, false, ◌&&◌, none, some, Bytes, ◌==◌, if◌then◌else◌, bytes_eq_refl,
  Bool-cases, inl, inr, arith,
}
use middlewar_test.Reactor.{
  EventFlag, SockAddr, SockItem, Reactor, max_epoll_event_num, watches, is_none, watch, sock_valid,
  same_peer, same_ntoa, add_to_watch_list,
}

same_peer_lem :
    (ntoa : ℕ → Bytes) (a b : SockAddr)
    → same_peer ntoa a b ≡ (a.sin_port == b.sin_port && a.sin_family == b.sin_family)
unfolding same_peer same_ntoa
same_peer_lem ntoa a b = ground (arith, bytes_eq_refl (ntoa b.sin_addr))

-- What a response does to a watched connection, on every branch: it is dropped if the socket has
-- been reset or if the port or the family differs from the connection's, and is watched for writing
-- otherwise. The address of the client plays no part.
pub add_to_watch_list-response :
    (ntoa : ℕ → Bytes) (r : Reactor) (fd : ℕ) (todo : EventFlag) (i : SockItem) (ok : Bool)
    → fd < max_epoll_event_num
    → add_to_watch_list ntoa r fd todo (some i) true ok
      ≡ some (
          if is_none (r.socks fd).flag
          then (0, r)
          else if i.sock_addr.sin_port == (r.socks fd).sock_addr.sin_port
              && i.sock_addr.sin_family == (r.socks fd).sock_addr.sin_family
          then watch r fd todo (some i) ok
          else (0, r))
unfolding add_to_watch_list sock_valid
add_to_watch_list-response ntoa r fd todo i ok h = elim (Bool-cases (is_none (r.socks fd).flag)) [
  | inl e ↦ rw e (ground arith)
  | inr e ↦ rw (e, same_peer_lem ntoa i.sock_addr (r.socks fd).sock_addr) (ground arith)
]

-- The reactor's own item: a new connection is watched, but one whose descriptor still stands in the
-- list is ignored.
pub add_to_watch_list-connection :
    (ntoa : ℕ → Bytes) (r : Reactor) (fd : ℕ) (todo : EventFlag) (ok : Bool)
    → fd < max_epoll_event_num
    → is_none (r.socks fd).flag ≡ false
    → add_to_watch_list ntoa r fd todo none true ok
      ≡ some (if watches fd r.fds then (0, r) else watch r fd todo none ok)
unfolding add_to_watch_list sock_valid
add_to_watch_list-connection ntoa r fd todo ok h e = elim (Bool-cases (watches fd r.fds)) [
  | inl w ↦ rw (e, w) (ground arith)
  | inr w ↦ rw (e, w) (ground arith)
]
