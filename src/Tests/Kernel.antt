-- ===== src/Tests/Kernel.antt =====
-- A small kernel for the parameter of netio/src/msgq_manager.cpp: the messages of all queues in one
-- list, in the order in which they were sent.
use middlewar_test.Base.{
  ℕ, true, some, none, List, [], ◌∷◌, ◌++◌, Bytes, ◌&&◌, ◌==◌, if◌then◌else◌, ℤ, ◌==ℤ◌,
}
use middlewar_test.Base.{◌≡◌, ◌∙◌, ◌<◌, refl, pos, ap, arith}
use middlewar_test.Queue.{Ipc, Received, got, no_msg}
use middlewar_test.Queue.Fifo.{Fifo}

pub record Letter : Type 0 where
  pub queue : ℕ
  pub type : ℤ
  pub text : Bytes

-- The first message of a queue and a type, and the others.
unfoldable pub take_letter : ℕ → ℤ → List Letter → Received × List Letter
take_letter id t [] = (no_msg, [])
take_letter id t (l ∷ ls) =
    let (answer, rest) = take_letter id t ls in
    if l.queue == id && l.type ==ℤ t then (got l.text, ls) else (answer, l ∷ rest)

abbrev pub mailbox : Ipc
mailbox = record {
  Kernel = List Letter;
  msgget = λ k ls. (some k, ls);
  msgctl_set = λ id n ls. (true, ls);
  msgctl_rmid = λ id ls. (true, ls);
  msgsnd = λ id t text ls. (true, ls ++ record { queue = id; type = t; text = text } ∷ []);
  msgrcv = λ id max t ls. take_letter id t ls;
}

-- One in which no queue can be opened.
abbrev pub closed_office : Ipc
closed_office = record {
  Kernel = List Letter;
  msgget = λ k ls. (none, ls);
  msgctl_set = λ id n ls. (true, ls);
  msgctl_rmid = λ id ls. (true, ls);
  msgsnd = λ id t text ls. (true, ls);
  msgrcv = λ id max t ls. (no_msg, ls);
}

-- The messages of a queue that have a type.
unfoldable pub letters : ℕ → ℕ → List Letter → List Bytes
letters id t [] = []
letters id t (l ∷ ls) =
    let rest = letters id t ls in if l.queue == id && l.type ==ℤ pos t then l.text ∷ rest else rest

letters-append :
    (id t : ℕ) (ls : List Letter) (l : Letter)
    → letters id t (ls ++ l ∷ []) ≡ (
        if l.queue == id && l.type ==ℤ pos t
        then letters id t ls ++ l.text ∷ []
        else letters id t ls)
unfolding letters
letters-append id t [] l = ground arith
letters-append id t (x ∷ ls) l = ground (arith, letters-append id t ls l)

pub take_letter-none :
    (id t : ℕ) (ls : List Letter) → letters id t ls ≡ [] → take_letter id (pos t) ls ≡ (no_msg, ls)
unfolding letters take_letter
take_letter-none id t [] h = refl
take_letter-none id t (l ∷ ls) h = ground (arith, take_letter-none id t ls)

pub take_letter-first :
    (id t : ℕ) (m : Bytes) (ms : List Bytes) (ls : List Letter)
    → letters id t ls ≡ m ∷ ms
    → (take_letter id (pos t) ls).0 ≡ got m
unfolding letters take_letter
take_letter-first id t m ms [] h = cc
take_letter-first id t m ms (l ∷ ls) h = ground (arith, take_letter-first id t m ms ls)

pub take_letter-rest :
    (id t jd u : ℕ) (m : Bytes) (ms : List Bytes) (ls : List Letter)
    → letters id t ls ≡ m ∷ ms
    → letters jd u (take_letter id (pos t) ls).1
      ≡ (if id == jd && t == u then ms else letters jd u ls)
unfolding letters take_letter
take_letter-rest id t jd u m ms [] h = cc
take_letter-rest id t jd u m ms (l ∷ ls) h = ground (arith, take_letter-rest id t jd u m ms ls)

pub letters-send :
    (id t jd u : ℕ) (m : Bytes) (ls : List Letter)
    → 0 < t
    → letters jd u (ls ++ record { queue = id; type = pos t; text = m } ∷ [])
      ≡ (if true && id == jd && t == u then letters jd u ls ++ m ∷ [] else letters jd u ls)
letters-send id t jd u m ls p =
    letters-append jd u ls (record { queue = id; type = pos t; text = m }) ∙ ground arith

-- The mailbox is a kernel as the program relies on it.
abbrev pub mailbox-Fifo : Fifo mailbox
mailbox-Fifo = record {
  holds = letters;
  holds-send = letters-send;
  first_taken = λ id t m ms k p h n. take_letter-first id t m ms k h;
  holds-take = λ id t jd u m ms k p h n. take_letter-rest id t jd u m ms k h;
  none_there = λ id t k p h. ap (λ (x : Received × List Letter). x.0) (take_letter-none id t k h);
  holds-miss = λ id t jd u k p h.
      ap (λ (x : Received × List Letter). letters jd u x.1) (take_letter-none id t k h);
}
