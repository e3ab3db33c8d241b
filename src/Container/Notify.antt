-- ===== src/Container/Notify.antt =====
-- `CContainerEventHandler::RespNotify` (netio/src/container_user_event_handler.cpp): a datagram to
-- the front process. Its state is the list of the descriptors that the process has open.
use middlewar_test.Base.{
  ℕ, suc, ◌+◌, ◌≡◌, refl, ◌∙◌, Option, none, some, List, [], ◌∷◌, if◌then◌else◌, ℤ, pos, negsuc,
  ◌==ℤ◌, length, not, arith, ==_refl,
}
use middlewar_test.Reactor.{erase_fd}

-- What `socket` and `sendto` answer in a call.
pub record Datagram : Type 0 where
  pub opened : Option ℕ
  pub sent : ℤ

unfoldable pub resp_notify : Datagram → List ℕ → ℤ × List ℕ
unfolding erase_fd
resp_notify d fds = elim d.opened [
  | none ↦ (negsuc 0, fds)
  | some fd ↦
      if not (d.sent ==ℤ pos 1) then (negsuc 1, fd ∷ fds) else (pos 0, erase_fd fd (fd ∷ fds))
]

-- Calls one after the other: their codes, and what is open then.
unfoldable pub resp_notifies : List Datagram → List ℕ → List ℤ × List ℕ
unfolding resp_notify
resp_notifies [] fds = ([], fds)
resp_notifies (d ∷ ds) fds =
    let (code, fds') = resp_notify d fds in
    let (codes, fds'') = resp_notifies ds fds' in (code ∷ codes, fds'')

-- How many of the codes are `z`.
abbrev pub times : ℤ → List ℤ → ℕ
times z [] = 0
times z (c ∷ cs) = let n = times z cs in if c ==ℤ z then suc n else n

resp_notify-open :
    (d : Datagram) (fds : List ℕ)
    → length (resp_notify d fds).1
      ≡ (if (resp_notify d fds).0 ==ℤ negsuc 1 then suc (length fds) else length fds)
resp_notify-open d fds = by_answer d.opened d.sent
  where
    by_answer :
        (opened : Option ℕ) (sent : ℤ)
        → let d' : Datagram = record { opened = opened; sent = sent } in
          length (resp_notify d' fds).1
          ≡ (if (resp_notify d' fds).0 ==ℤ negsuc 1 then suc (length fds) else length fds)
    by_answer none sent = unfold resp_notify in refl
    by_answer (some fd) sent = unfold resp_notify erase_fd in ground (arith, ==_refl fd)

-- After any number of calls of `RespNotify` as many more descriptors are open as calls returned -2, the
-- code of a `sendto` that failed.
pub resp_notifies-open :
    (ds : List Datagram) (fds : List ℕ)
    → length (resp_notifies ds fds).1 ≡ times (negsuc 1) (resp_notifies ds fds).0 + length fds
unfolding resp_notifies
resp_notifies-open [] fds = omega arith
resp_notifies-open (d ∷ ds) fds =
    resp_notifies-open ds (resp_notify d fds).1 ∙ ground (arith, resp_notify-open d fds)
