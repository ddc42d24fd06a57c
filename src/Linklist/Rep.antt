-- ===== src/Linklist/Rep.antt =====
-- When a header of linux/src/linklist.c, with the store, stands for a sequence of nodes.
use libjoe.Base.{◌≤◌, ◌≡◌, ap, true, false, Option, some, arith, length, ℤ}
use libjoe.Mem.{memory_allocate_max_times}
use libjoe.Mem.Live.{used, IsLog, used-le-length}
use libjoe.Linklist.Store.{Ptr, null, Store}
use libjoe.Linklist.Functions.{Header, header}
use libjoe.Linklist.Chain.{
  Cells, has, distinct, first_of, last_of, Chain, Owned, Chain-NonNull, length-le-used,
}

-- The header of a list that consists of the nodes `xs`.
abbrev pub header_of : Cells → Header
header_of xs = header (first_of xs null) (last_of xs null) (length xs)

-- The header leads to the nodes `xs`, linked both ways between NULL and NULL; they are distinct live
-- blocks of the log, and `node_cnt` counts them.
pub record IsList (st : Store) (hd : Header) (xs : Cells) : Type 0 where
  pub ends : hd ≡ header_of xs
  pub chain : Chain st.cell null null xs
  pub apart : distinct xs ≡ true
  pub owned : Owned st.log xs
  pub log : IsLog st.log

-- Nothing but the nodes `xs` is touched.
abbrev pub SameOutside : Cells → Store → Store → Type 0
SameOutside xs st st' = (a : Ptr) → has a xs ≡ false → st'.cell a ≡ st.cell a

-- What a function of linklist.c leaves behind: it returns `r`, the header then leads to the nodes
-- `ys`, and no address outside `touched` has changed.
abbrev pub Leaves : Store → Cells → ℤ → Cells → ℤ × Option Header → Store → Type 0
Leaves st touched r ys (got, hd) st' =
    (got ≡ r) × ((hd' : Header) × (hd ≡ some hd') × IsList st' hd' ys) × SameOutside touched st st'

-- The log bounds a list: `node_cnt` is at most 200, and so never wraps.
pub length-le-slots :
    {st : Store} {hd : Header} {xs : Cells} → IsList st hd xs → length xs ≤ used st.log
length-le-slots {st} {hd} {xs} is =
    length-le-used xs st.log is.log.distinct is.apart (Chain-NonNull st.cell null null xs is.chain)
      is.owned

pub node_cnt-le :
    {st : Store} {hd : Header} {xs : Cells}
    → IsList st hd xs
    → (hd.node_cnt ≡ length xs) × (hd.node_cnt ≤ memory_allocate_max_times)
node_cnt-le {st} {hd} {xs} is =
    let e : hd.node_cnt ≡ length xs = ap (λ (h : Header). h.node_cnt) is.ends in
    (e, omega (arith, length-le-slots is, used-le-length st.log, is.log.slots, e))
