-- ===== src/Queue/Fifo.antt =====
-- What `msgsnd` and `msgrcv` of System V message queues do with the messages of a queue, as
-- netio/src/msgq_manager.cpp relies on it: a message that is taken is put last, and a call for a type
-- takes the first message of that type.
use middlewar_test.Base.{
  refl, ◌∙◌, ==_refl, arith, ℕ, ◌≤◌, ◌<◌, ◌≡◌, true, ◌&&◌, List, [], ◌∷◌, ◌++◌, Bytes, ◌==◌,
  if◌then◌else◌, length, pos,
}
use middlewar_test.Queue.{Ipc, got, no_msg, max_msg_size}

pub record Fifo (ipc : Ipc) : Type 0 where
  -- The messages of a queue that have a type, in the order in which they will be taken.
  pub holds : ℕ → ℕ → ipc.Kernel → List Bytes
  pub holds-send :
      (id type jd other : ℕ) (m : Bytes) (k : ipc.Kernel)
      → 0 < type
      → holds jd other (ipc.msgsnd id (pos type) m k).1 ≡ (
          if (ipc.msgsnd id (pos type) m k).0 && id == jd && type == other
          then holds jd other k ++ m ∷ []
          else holds jd other k)
  pub first_taken :
      (id type : ℕ) (m : Bytes) (ms : List Bytes) (k : ipc.Kernel)
      → 0 < type
      → holds id type k ≡ m ∷ ms
      → length m ≤ max_msg_size
      → (ipc.msgrcv id max_msg_size (pos type) k).0 ≡ got m
  pub holds-take :
      (id type jd other : ℕ) (m : Bytes) (ms : List Bytes) (k : ipc.Kernel)
      → 0 < type
      → holds id type k ≡ m ∷ ms
      → length m ≤ max_msg_size
      → holds jd other (ipc.msgrcv id max_msg_size (pos type) k).1
        ≡ (if id == jd && type == other then ms else holds jd other k)
  pub none_there :
      (id type : ℕ) (k : ipc.Kernel)
      → 0 < type
      → holds id type k ≡ []
      → (ipc.msgrcv id max_msg_size (pos type) k).0 ≡ no_msg
  pub holds-miss :
      (id type jd other : ℕ) (k : ipc.Kernel)
      → 0 < type
      → holds id type k ≡ []
      → holds jd other (ipc.msgrcv id max_msg_size (pos type) k).1 ≡ holds jd other k

module _ (ipc : Ipc) (fifo : Fifo ipc) where
  open ipc use {Kernel, msgsnd, msgrcv}
  open fifo use {holds, holds-send, first_taken, holds-take}

  -- A message that is put on an idle queue and taken from it: the message is handed over, and all
  -- queues hold what they did.
  pub handed_over :
      (id type : ℕ) (m : Bytes) (k : Kernel)
      → 0 < type
      → length m ≤ max_msg_size
      → holds id type k ≡ []
      → (msgsnd id (pos type) m k).0 ≡ true
      → let sent = (msgsnd id (pos type) m k).1 in
        ((msgrcv id max_msg_size (pos type) sent).0 ≡ got m)
        × ((jd u : ℕ) → holds jd u (msgrcv id max_msg_size (pos type) sent).1 ≡ holds jd u k)
  handed_over id type m k p n h e =
      let sent = (msgsnd id (pos type) m k).1 in
      let put : (jd u : ℕ)
          → holds jd u sent
            ≡ (if id == jd && type == u then holds jd u k ++ m ∷ [] else holds jd u k) =
        λ jd u. holds-send id type jd u m k p ∙ rw e refl in
      let there : holds id type sent ≡ m ∷ [] =
        put id type ∙ rw (==_refl id, ==_refl type, h) refl in
      (
        first_taken id type m [] sent p there n,
        λ jd u. holds-take id type jd u m [] sent p there n ∙ ground (arith, put jd u, h),
      )
