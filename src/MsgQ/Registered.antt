-- ===== src/MsgQ/Registered.antt =====
-- The event clients of a server of linux/src/msgQ.c as `msgQ_srv_monitorrequest` keeps them: the abstract
-- view is the list of their queues, and what may happen to it is one step of `Change`.
use libjoe.Base.{
  ◌≡◌, ◌<◌, ◌≤◌, refl, ap, Bool, true, false, not, ◌&&◌, ◌||◌, List, [], ◌∷◌, ◌++◌, ℤ, pos, eq_ℤ,
  arith, length,
}
use libjoe.Mem.{Table}
use libjoe.MsgQ.System.{Ptr, Cell, message_queue_max_client}
use libjoe.MsgQ.Server.{Srv}
use libjoe.MsgQ.Registry.{Clients, IsRing}

abbrev pub qids : Clients → List ℤ
qids [] = []
qids ((p, q) ∷ xs) = q ∷ qids xs

abbrev pub has_queue : ℤ → List ℤ → Bool
has_queue q [] = false
has_queue q (r ∷ qs) = eq_ℤ r q || has_queue q qs

abbrev pub distinct_queues : List ℤ → Bool
distinct_queues [] = true
distinct_queues (q ∷ qs) = not (has_queue q qs) && distinct_queues qs

-- The clients are in a ring, `clt_amt` counts them, they are ten at most, and no two have one queue.
pub record IsServer (c : Cell) (t : Table) (srv : Srv) (xs : Clients) : Type 0 where
  pub ring : IsRing c t srv.head xs
  pub amount : srv.clt_amt ≡ pos (length xs)
  pub few : length xs ≤ message_queue_max_client
  pub apart : distinct_queues (qids xs) ≡ true

-- What a request does to the list of queues.
pub data Change (qs : List ℤ) : List ℤ → Type 0 where
  unchanged : Change qs qs
  joined :
      (q : ℤ)
      → has_queue q qs ≡ false
      → length qs < message_queue_max_client
      → Change qs (qs ++ q ∷ [])
  dropped : (rs ss : List ℤ) (q : ℤ) → qs ≡ rs ++ q ∷ ss → Change qs (rs ++ ss)

pub qids-append : (xs ys : Clients) → qids (xs ++ ys) ≡ qids xs ++ qids ys
qids-append [] ys = refl
qids-append ((p, q) ∷ xs) ys = ap (◌∷◌ q) (qids-append xs ys)

pub length-qids : (xs : Clients) → length (qids xs) ≡ length xs
length-qids [] = refl
length-qids ((p, q) ∷ xs) = ground (arith, length-qids xs)

pub has_queue-append :
    (q : ℤ) (qs rs : List ℤ) → has_queue q (qs ++ rs) ≡ (has_queue q qs || has_queue q rs)
has_queue-append q [] rs = refl
has_queue-append q (r ∷ qs) rs = ground (arith, has_queue-append q qs rs)

pub distinct_queues-append_last :
    (qs : List ℤ) (q : ℤ)
    → distinct_queues qs ≡ true
    → has_queue q qs ≡ false
    → distinct_queues (qs ++ q ∷ []) ≡ true
distinct_queues-append_last [] q d out = refl
distinct_queues-append_last (r ∷ qs) q d out =
    ground (arith, distinct_queues-append_last qs q, has_queue-append r qs (q ∷ []))

pub distinct_queues_middle :
    (qs : List ℤ) (q : ℤ) (rs : List ℤ)
    → distinct_queues (qs ++ q ∷ rs) ≡ true
    → distinct_queues (qs ++ rs) ≡ true
distinct_queues_middle [] q rs d = ground arith
distinct_queues_middle (r ∷ qs) q rs d = ground (
  arith,
  distinct_queues_middle qs q rs,
  has_queue-append r qs (q ∷ rs),
  has_queue-append r qs rs,
)

pub has_queue_middle :
    (xs : Clients) (d : Ptr) (q : ℤ) (ys : Clients) → has_queue q (qids (xs ++ (d, q) ∷ ys)) ≡ true
has_queue_middle [] d q ys = ground arith
has_queue_middle ((p, r) ∷ xs) d q ys = ground (arith, has_queue_middle xs d q ys)
