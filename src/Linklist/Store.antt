-- ===== src/Linklist/Store.antt =====
-- The memory that linux/src/linklist.c works on: list nodes at addresses beside the log of mem.c, and
-- commands that read and write it. A read or write through NULL or through an address that holds no
-- node is a fault. What `malloc` does is a parameter.
use Prim.Native.String.{String}
use libjoe.Base.{
  Run, ok, fault, ◌>>=◌, ℕ, ◌≡◌, ◌≢◌, false, Option, none, some, ℤ, pos, negsuc, ◌==◌,
  if◌then◌else◌,
}
use libjoe.Mem.{Table, omalloc, ofree}
use libjoe.Mem.Live.{is_live}

abbrev pub Ptr : Type 0
Ptr = ℕ

abbrev pub null : Ptr
null = 0

-- `list_node`
pub record Node : Type 0 where
  pub ins : ℕ
  pub next : Ptr
  pub prev : Ptr

abbrev pub node : ℕ → Ptr → Ptr → Node
node v n p = record { ins = v; next = n; prev = p }

abbrev pub Cell : Type 0
Cell = Ptr → Option Node

unfoldable pub write : Cell → Ptr → Option Node → Cell
write c p o a = if a == p then o else c a

pub record Store : Type 0 where
  pub cell : Cell
  pub log : Table

-- The C library: what `malloc` returns, what the memory that it returns holds, and the text that
-- `snprintf` makes of a description.
pub record Libc : Type 0 where
  pub malloc : Store → ℕ → Ptr
  pub garbage : Store → Node
  pub stamp : String → String

-- `malloc` returns NULL or a block that is not in use.
pub record IsLibc (c : Libc) : Type 0 where
  pub fresh_cell : (st : Store) (n : ℕ) → c.malloc st n ≢ 0 → st.cell (c.malloc st n) ≡ none
  pub fresh_log : (st : Store) (n : ℕ) → c.malloc st n ≢ 0 → is_live (c.malloc st n) st.log ≡ false

abbrev pub Cmd : Type 0 → Type 0
Cmd A = Store → Run Store A

-- `*p`
unfoldable pub load : Ptr → Cmd Node
load p st = if p == null then fault else elim (st.cell p) [ none ↦ fault | some n ↦ ok n st ]

abbrev pub store : Ptr → Node → Cmd (Unit {0})
store p n st = ok tt (record st { cell = write st.cell p (some n) })

-- `p->next = q`, `p->prev = q`, `p->ins = v`
unfoldable pub set_next : Ptr → Ptr → Cmd (Unit {0})
unfolding load
set_next p q = do n ← load p; store p (record n { next = q })

unfoldable pub set_prev : Ptr → Ptr → Cmd (Unit {0})
unfolding load
set_prev p q = do n ← load p; store p (record n { prev = q })

unfoldable pub set_ins : Ptr → ℕ → Cmd (Unit {0})
unfolding load
set_ins p v = do n ← load p; store p (record n { ins = v })

-- sizeof(list_node)
abbrev pub node_size : ℕ
node_size = 24

-- `omalloc("list node", sizeof(list_node))`
unfoldable pub omalloc_node : Libc → Cmd Ptr
omalloc_node c st =
    let (p, log') = omalloc (c.malloc st node_size) c.stamp (some "list node") node_size st.log in
    ok p (
      if p == null
      then record { cell = st.cell; log = log' }
      else record { cell = write st.cell p (some (c.garbage st)); log = log' })

-- `ofree(p)`: the node is gone when `ofree` has called `free`, which it does when it returns 0.
unfoldable pub free_cell : ℤ → Cell → Ptr → Cell
free_cell (pos n) c p = write c p none
free_cell (negsuc n) c p = c

unfoldable pub ofree_node : Ptr → Cmd ℤ
unfolding free_cell
ofree_node p st =
    let (r, log') = ofree p st.log in ok r (record { cell = free_cell r st.cell p; log = log' })
