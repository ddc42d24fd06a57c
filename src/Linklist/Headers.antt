-- ===== src/Linklist/Headers.antt =====
-- `list_header_init` and `list_header_delete` of linux/src/linklist.c. What their argument points to is
-- `none` for a NULL pointer, or a header with its address; `n` bounds the rounds of the loop.
use libjoe.Base.{
  ℕ, zero, suc, ◌≡◌, ◌≢◌, refl, ◌&&◌, Option, none, some, ℤ, pos, minus_one, ◌==◌, ==-false,
  if◌then◌else◌, ok, out_of_fuel, pure, ◌>>=◌,
}
use libjoe.Mem.{omalloc, ofree}
use libjoe.Linklist.Store.{Ptr, null, Store, Libc, Cmd}
use libjoe.Linklist.Functions.{Header, header, list_remove_first}

-- `list_header`
abbrev pub HeaderAt : Type 0
HeaderAt = Option (Ptr × Header)

-- sizeof(struct __list_header)
abbrev pub header_size : ℕ
header_size = 24

unfoldable pub list_header_init : Libc → Option HeaderAt → Cmd (ℤ × Option HeaderAt)
list_header_init c none = pure (minus_one, none)
list_header_init c (some (some h)) = pure (pos 0, some (some h))
list_header_init c (some none) = λ st.
    let (p, log') =
      omalloc (c.malloc st header_size) c.stamp (some "list header") header_size st.log in
    ok (if p == null then (minus_one, some none) else (pos 0, some (some (p, header null null 0))))
      (record { cell = st.cell; log = log' })

-- The loop goes on while the list is empty.
unfoldable pub delete_loop : ℕ → Header → Cmd Header
delete_loop zero hd = λ st. out_of_fuel
delete_loop (suc n) hd =
    if hd.first == null && hd.tail == null
    then (do
      (_, o) ← list_remove_first (some hd)
      elim o [ none ↦ pure hd | some hd' ↦ delete_loop n hd' ])
    else pure hd

unfoldable pub list_header_delete : ℕ → Option HeaderAt → Cmd (ℤ × Option HeaderAt)
unfolding delete_loop
list_header_delete n none = pure (minus_one, none)
list_header_delete n (some none) = pure (pos 0, some none)
list_header_delete n (some (some (p, hd))) = do
  hd' ← delete_loop n hd
  λ st.
      let (r, log') = ofree p st.log in
      ok (pos 0, some (some (p, hd'))) (record { cell = st.cell; log = log' })

delete_loop-empty : (n cnt : ℕ) (st : Store) → delete_loop n (header null null cnt) st ≡ out_of_fuel
unfolding delete_loop list_remove_first
delete_loop-empty zero cnt st = refl
delete_loop-empty (suc n) cnt st = delete_loop-empty n cnt st

-- On a header with no node `list_header_delete` does not end, however many rounds it gets; on one whose
-- first node is there it returns 0 after one test, gives back the header alone and keeps every node.
pub list_header_delete-cases :
    (n : ℕ) (p first tail cnt0 cnt : ℕ) (st : Store)
    → first ≢ null
    → (list_header_delete n (some (some (p, header null null cnt0))) st ≡ out_of_fuel)
      × (list_header_delete (suc n) (some (some (p, header first tail cnt))) st
          ≡ ok
              (pos 0, some (some (p, header first tail cnt)))
              (record { cell = st.cell; log = (ofree p st.log).1 }))
unfolding list_header_delete delete_loop
list_header_delete-cases n p first tail cnt0 cnt st ne =
    (rw (delete_loop-empty n cnt0 st) refl, rw (==-false first null ne) refl)
