-- ===== src/Linklist/Functions.antt =====
-- The list_* functions of linux/src/linklist.c, statement by statement. The `struct __list_header`
-- lives outside the store: a function takes it (`none` for a NULL pointer) and returns its new value
-- beside its result. Each loop runs on fuel, one more than `node_cnt`.
use libjoe.Base.{
  out_of_fuel, pure, ◌>>=◌, ◌>>◌, ℕ, zero, suc, ◌+◌, ◌-◌, ◌%◌, ◌^◌, Option, none, some, ℤ, pos,
  minus_one, to_int, ltb, leb, ◌==◌, if◌then◌else◌,
}
use libjoe.Linklist.Store.{
  Ptr, null, Cmd, load, set_next, set_prev, set_ins, Libc, omalloc_node, ofree_node,
}

-- `struct __list_header`
pub record Header : Type 0 where
  pub first : Ptr
  pub tail : Ptr
  pub node_cnt : ℕ

abbrev pub header : Ptr → Ptr → ℕ → Header
header f t n = record { first = f; tail = t; node_cnt = n }

-- `unsigned int` arithmetic
abbrev pub incr : ℕ → ℕ
incr n = (n + 1) % 2 ^ 32

abbrev pub decr : ℕ → ℕ
decr n = (n + 2 ^ 32 - 1) % 2 ^ 32

-- The statements of `list_insert_tail` behind the checks.
unfoldable pub link_tail : Header → Ptr → ℕ → Cmd (ℤ × Header)
link_tail hd new v =
    if hd.first == null
    then (do
      set_next new null
      set_prev new null
      set_ins new v
      pure (to_int (pos hd.node_cnt), header new new (incr hd.node_cnt)))
    else do
      set_next hd.tail new
      set_prev new hd.tail
      set_next new null
      set_ins new v
      pure (to_int (pos hd.node_cnt), header hd.first new (incr hd.node_cnt))

unfoldable pub list_insert_tail : Libc → Option Header → ℕ → Cmd (ℤ × Option Header)
list_insert_tail c none ins = pure (minus_one, none)
list_insert_tail c (some hd) ins = if ins == 0 then pure (minus_one, some hd) else do
  new ← omalloc_node c
  if new == null
      then pure (minus_one, some hd)
      else do (r, hd') ← link_tail hd new ins; pure (r, some hd')

-- `list_insert_first` does not test what `omalloc` returns.
unfoldable pub link_first : Header → Ptr → ℕ → Cmd (ℤ × Header)
link_first hd new v =
    if hd.first == null
    then (do
      set_next new null
      set_prev new null
      set_ins new v
      pure (pos 0, header new new (incr hd.node_cnt)))
    else do
      set_prev hd.first new
      set_prev new null
      set_next new hd.first
      set_ins new v
      pure (pos 0, header new hd.tail (incr hd.node_cnt))

unfoldable pub list_insert_first : Libc → Option Header → ℕ → Cmd (ℤ × Option Header)
list_insert_first c none ins = pure (minus_one, none)
list_insert_first c (some hd) ins =
    if ins == 0
    then pure (minus_one, some hd)
    else do new ← omalloc_node c; (r, hd') ← link_first hd new ins; pure (r, some hd')

-- The loop of `list_insert_index`. It stores no `ins` in the new node.
unfoldable pub insert_loop : ℕ → Header → (new p_node : Ptr) → (cnt idx : ℕ) → Cmd (ℤ × Header)
insert_loop zero hd new p_node cnt idx = λ _. out_of_fuel
insert_loop (suc k) hd new p_node cnt idx =
    if p_node == null
    then pure (minus_one, hd)
    else if cnt == idx
    then (do
      n ← load p_node
      set_prev n.next new
      n' ← load p_node
      set_next new n'.next
      set_prev new p_node
      set_next p_node new
      pure (to_int (pos cnt), header hd.first hd.tail (incr hd.node_cnt)))
    else do n ← load p_node; insert_loop k hd new n.next (incr cnt) idx

-- What `list_insert_index` does from its own `omalloc` on, the result of which it does not test.
unfoldable pub insert_at : Libc → ℕ → Option Header → Cmd (ℤ × Option Header)
insert_at c idx none = pure (minus_one, none)
insert_at c idx (some hd) = do
  new ← omalloc_node c
  (r, hd') ← insert_loop (hd.node_cnt + 1) hd new hd.first 1 idx
  pure (r, some hd')

-- Past the end `list_insert_tail` is called and its result dropped; the function then goes on.
unfoldable pub list_insert_index : Libc → Option Header → ℕ → ℕ → Cmd (ℤ × Option Header)
list_insert_index c none ins idx = pure (minus_one, none)
list_insert_index c (some hd) ins idx =
    if ins == 0
    then pure (minus_one, some hd)
    else if idx == 0
    then list_insert_first c (some hd) ins
    else do
      (_, hd') ←
          (if leb hd.node_cnt idx then list_insert_tail c (some hd) ins else pure (pos 0, some hd))
      insert_at c idx hd'

unfoldable pub list_get_tail : Option Header → Cmd ℕ
list_get_tail none = pure 0
list_get_tail (some hd) = if hd.node_cnt == 0 then pure 0 else do n ← load hd.tail; pure n.ins

unfoldable pub list_get_first : Option Header → Cmd ℕ
list_get_first none = pure 0
list_get_first (some hd) = if hd.node_cnt == 0 then pure 0 else do n ← load hd.first; pure n.ins

unfoldable pub get_loop : ℕ → (p_node : Ptr) → (cnt idx : ℕ) → Cmd ℕ
get_loop zero p_node cnt idx = λ _. out_of_fuel
get_loop (suc k) p_node cnt idx =
    if p_node == null
    then pure 0
    else do n ← load p_node; if cnt == idx then pure n.ins else get_loop k n.next (incr cnt) idx

unfoldable pub list_get_index : Option Header → ℕ → Cmd ℕ
list_get_index none idx = pure 0
list_get_index (some hd) idx =
    if ltb hd.node_cnt idx
    then pure 0
    else if idx == 0
    then list_get_first (some hd)
    else get_loop (hd.node_cnt + 1) hd.first 0 idx

unfoldable pub unlink_tail : Header → Cmd (ℤ × Header)
unlink_tail hd = do
  n ← load hd.tail
  (if n.prev == null then pure tt else set_next n.prev n.next)
  n' ← load hd.tail
  let first' = if hd.first == hd.tail then n'.next else hd.first
  ofree_node hd.tail
  pure (pos 0, header first' n'.prev (decr hd.node_cnt))

unfoldable pub list_remove_tail : Option Header → Cmd (ℤ × Option Header)
list_remove_tail none = pure (minus_one, none)
list_remove_tail (some hd) =
    if hd.tail == null
    then pure (pos 0, some hd)
    else do (r, hd') ← unlink_tail hd; pure (r, some hd')

unfoldable pub unlink_first : Header → Cmd (ℤ × Header)
unlink_first hd = do
  n ← load hd.first
  (if n.next == null then pure tt else set_prev n.next n.prev)
  n' ← load hd.first
  let tail' = if hd.tail == hd.first then n'.prev else hd.tail
  ofree_node hd.first
  pure (pos 0, header n'.next tail' (decr hd.node_cnt))

unfoldable pub list_remove_first : Option Header → Cmd (ℤ × Option Header)
list_remove_first none = pure (minus_one, none)
list_remove_first (some hd) =
    if hd.first == null
    then pure (pos 0, some hd)
    else do (r, hd') ← unlink_first hd; pure (r, some hd')

-- The removal of a node that has neighbours on both sides.
unfoldable pub unlink_middle : Header → (p_node : Ptr) → Cmd (ℤ × Option Header)
unlink_middle hd p_node = do
  n ← load p_node
  set_next n.prev n.next
  n' ← load p_node
  set_prev n'.next n'.prev
  ofree_node p_node
  pure (pos 0, some (header hd.first hd.tail (decr hd.node_cnt)))

unfoldable pub remove_loop : ℕ → Header → (p_node : Ptr) → (cnt idx : ℕ) → Cmd (ℤ × Option Header)
remove_loop zero hd p_node cnt idx = λ _. out_of_fuel
remove_loop (suc k) hd p_node cnt idx =
    if p_node == null
    then pure (minus_one, some hd)
    else if cnt == idx
    then (if p_node == hd.first
        then list_remove_first (some hd)
        else if p_node == hd.tail
        then list_remove_tail (some hd)
        else unlink_middle hd p_node)
    else do n ← load p_node; remove_loop k hd n.next (incr cnt) idx

unfoldable pub list_remove_index : Option Header → ℕ → Cmd (ℤ × Option Header)
list_remove_index none idx = pure (minus_one, none)
list_remove_index (some hd) idx =
    if ltb hd.node_cnt idx
    then pure (minus_one, some hd)
    else if idx == 0
    then list_remove_first (some hd)
    else remove_loop (hd.node_cnt + 1) hd hd.first 0 idx

unfoldable pub list_header_length : Option Header → ℤ
list_header_length none = pos 0
list_header_length (some hd) = to_int (pos hd.node_cnt)
