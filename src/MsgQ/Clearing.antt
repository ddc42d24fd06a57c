-- ===== src/MsgQ/Clearing.antt =====
-- What `msgQ_srv_init` of linux/src/msgQ.c does before it sets the server up: it looks for the queue, and
-- `msgQ_srv_clear` takes the messages out of it.
use Prim.Native.String.{String}
use libjoe.Base.{
  suc, ◌^◌, to_int-pos, eq_ℤ_iff, List, ◌∷◌, ◌+◌, ◌≤◌, length, ap, Ensures, ◌<◌, ℕ, zero, ◌≡◌, refl,
  ◌∙◌, inl, inr, Bool-cases, Bool, true, false, some, [], ℤ, pos, minus_one, eq_ℤ, arith,
  if◌then◌else◌, ok, pure,
}
use libjoe.MsgQ.System.{
  State, Package, xid_size, enoent, eintr, eagain, enomsg, eidrm, e2big, unknown, Answer, got,
  failed, System, Cmd, message_queue_max_size,
}
use libjoe.MsgQ.Commands.{call}
use libjoe.MsgQ.Files.{
  no_directory, no_key_file, or_minus_one, after_msgget, get_queue, msg_q_get_qid,
}
use libjoe.MsgQ.Queue.{IsQueue}
use libjoe.MsgQ.Server.{Srv, queue_length, msg_q_srv_length, clear_loop, msg_q_srv_clear}

-- The command ends, only the world changes, and no message comes or goes.
abbrev pub EndsOutside : {W A : Type 0} → (ℤ → W → List Package) → Cmd W A → State W → Type 0
EndsOutside {W} {A} held m st =
    (a : A) × (w : W) × (m st ≡ ok a (record st { world = w }))
    × ((q : ℤ) → held q w ≡ held q st.world)

-- Every message fits the size that the server asks for.
abbrev pub AllFit : List Package → Type 0
AllFit [] = Unit {0}
AllFit (p ∷ ps) = (xid_size + length p.bytes ≤ message_queue_max_size) × AllFit ps

-- `msgctl` counts the messages of a queue that is there; it and the calls that look for a queue leave them all.
pub record IsCounted {W : Type 0} (held : ℤ → W → List Package) (k : System W) : Type 0 where
  pub counts : (q : ℤ) (w : W) → (k.msg_qnum q w).0 ≡ got (pos (length (held q w)))
  pub counted : (q r : ℤ) (w : W) → held r (k.msg_qnum q w).1 ≡ held r w
  pub stat : (r : ℤ) (w : W) → held r (k.stat w).1 ≡ held r w
  pub mkdir : (r : ℤ) (w : W) → held r (k.mkdir w).1 ≡ held r w
  pub exists : (name : String) (r : ℤ) (w : W) → held r (k.exists name w).1 ≡ held r w
  pub create : (name : String) (r : ℤ) (w : W) → held r (k.create name w).1 ≡ held r w
  pub ftok : (name : String) (r : ℤ) (w : W) → held r (k.ftok name w).1 ≡ held r w
  pub msgget : (key : ℤ) (new : Bool) (r : ℤ) (w : W) → held r (k.msgget key new w).1 ≡ held r w

length-zero : (ps : List Package) → length ps ≡ 0 → ps ≡ []
length-zero [] e = refl
length-zero (p ∷ ps) e = absurd (omega arith)

module _ {W : Type 0} {held : ℤ → W → List Package} {k : System W}
    (outside : IsCounted held k) where
  EndsOutside-if :
      {A : Type 0} (b : Bool) (m n : Cmd W A) (st : State W)
      → EndsOutside held m st
      → EndsOutside held n st
      → EndsOutside held (if b then m else n) st
  EndsOutside-if true m n st h i = h
  EndsOutside-if false m n st h i = i

  after_msgget-EndsOutside :
      (key : ℤ) (r : Answer ℤ) (st : State W) → EndsOutside held (after_msgget k key r) st
  after_msgget-EndsOutside key (got q) st = (q, st.world, refl, λ r. refl)
  after_msgget-EndsOutside key (failed enoent) st = (
    or_minus_one k (k.msgget key true st.world).0,
    (k.msgget key true st.world).1,
    refl,
    λ r. outside.msgget key true r st.world,
  )
  after_msgget-EndsOutside key (failed eintr) st = (minus_one, st.world, refl, λ r. refl)
  after_msgget-EndsOutside key (failed eagain) st = (minus_one, st.world, refl, λ r. refl)
  after_msgget-EndsOutside key (failed enomsg) st = (minus_one, st.world, refl, λ r. refl)
  after_msgget-EndsOutside key (failed eidrm) st = (minus_one, st.world, refl, λ r. refl)
  after_msgget-EndsOutside key (failed e2big) st = (minus_one, st.world, refl, λ r. refl)
  after_msgget-EndsOutside key (failed unknown) st = (minus_one, st.world, refl, λ r. refl)

  no_directory-EndsOutside : (st : State W) → EndsOutside held (no_directory k) st
  unfolding no_directory
  no_directory-EndsOutside st =
      let (missing, w) = k.stat st.world in
      let (b, w', r, h) =
        EndsOutside-if missing (call k.mkdir) (pure false) (record st { world = w })
          ((k.mkdir w).0, (k.mkdir w).1, refl, λ q. outside.mkdir q w)
          (false, w, refl, λ q. refl) in
      (b, w', r, λ q. h q ∙ outside.stat q st.world)

  no_key_file-EndsOutside :
      (name : String) (st : State W) → EndsOutside held (no_key_file k name) st
  unfolding no_key_file
  no_key_file-EndsOutside name st =
      let (there, w) = k.exists name st.world in
      let (b, w', r, h) =
        EndsOutside-if there (pure false) (call (k.create name)) (record st { world = w })
          (false, w, refl, λ q. refl)
          ((k.create name w).0, (k.create name w).1, refl, λ q. outside.create name q w) in
      (b, w', r, λ q. h q ∙ outside.exists name q st.world)

  -- Looking for a queue ends, and changes no memory and no queue.
  pub get_qid-EndsOutside :
      (name : String) (st : State W) → EndsOutside held (msg_q_get_qid k (some name)) st
  unfolding msg_q_get_qid get_queue
  get_qid-EndsOutside name st =
      let (b1, w1, r1, h1) = no_directory-EndsOutside st in
      let (b2, w2, r2, h2) = no_key_file-EndsOutside name (record st { world = w1 }) in
      let (key, w3) = k.ftok name w2 in
      let (r, w4) = k.msgget key false w3 in
      let (q, w5, r5, h5) = after_msgget-EndsOutside key r (record st { world = w4 }) in
      let at2 : (q : ℤ) → held q w2 ≡ held q st.world = λ q. h2 q ∙ h1 q in
      let at3 : (q : ℤ) → held q w3 ≡ held q st.world = λ q. outside.ftok name q w2 ∙ at2 q in
      elim (Bool-cases b1) [
        | inl no_dir ↦ (minus_one, w1, rw (r1, no_dir) refl, h1)
        | inr dir ↦ elim (Bool-cases b2) [
          | inl no_file ↦ (minus_one, w2, rw (r1, dir, r2, no_file) refl, at2)
          | inr file ↦ elim (Bool-cases (eq_ℤ key minus_one)) [
            | inl no_key ↦ (minus_one, w3, rw (r1, dir, r2, file, no_key) refl, at3)
            | inr ftok ↦ (
              q,
              w5,
              rw (r1, dir, r2, file, ftok, r5) refl,
              λ q. h5 q ∙ outside.msgget key false q w3 ∙ at3 q,
            )
          ]
        ]
      ]

  -- Only the world has changed, and the queue is empty.
  abbrev pub Emptied : ℤ → State W → State W → Type 0
  Emptied q st st' = (st' ≡ record st { world = st'.world }) × (held q st'.world ≡ [])

  counted-zero :
      (q : ℤ) (w : W)
      → length (held q w) < 2 ^ 31
      → eq_ℤ (queue_length (k.msg_qnum q w).0) (pos 0) ≡ true
      → held q w ≡ []
  counted-zero q w few e =
      let same : queue_length (k.msg_qnum q w).0 ≡ pos (length (held q w)) =
        ap queue_length (outside.counts q w) ∙ to_int-pos (length (held q w)) few in
      length-zero (held q w)
        (ground (arith, (eq_ℤ_iff (queue_length (k.msg_qnum q w).0) (pos 0)).0 e, same))

  module _ (queue : IsQueue held k) where
    clear_loop-Emptied :
        (n : ℕ) (srv : Srv) (st : State W) (w : W) (ps : List Package)
        → held srv.qid w ≡ ps
        → AllFit ps
        → length ps < n
        → n ≤ 2 ^ 31
        → Ensures (λ r st'. Emptied srv.qid st st') (clear_loop k n srv (record st { world = w }))
    unfolding clear_loop msg_q_srv_length
    clear_loop-Emptied zero srv st w ps h fit enough word = absurd (omega arith)
    clear_loop-Emptied (suc n) srv st w [] h fit enough word =
        let (r, w1) = k.msg_qnum srv.qid w in
        let is_empty : r ≡ got (pos 0) =
          outside.counts srv.qid w ∙ ap (λ (l : List Package). got (pos (length l))) h in
        rw is_empty (refl, outside.counted srv.qid srv.qid w ∙ h)
    clear_loop-Emptied (suc n) srv st w (p ∷ ps) h (fits, fit) enough word =
        let (r, w1) = k.msg_qnum srv.qid w in
        let w2 = (k.msgrcv srv.qid message_queue_max_size (pos 0) true w1).1 in
        let left : held srv.qid w2 ≡ ps =
          (queue.taken srv.qid message_queue_max_size (pos 0) true w1 [] p ps
            (outside.counted srv.qid srv.qid w ∙ h) refl refl fits).1 in
        elim (Bool-cases (eq_ℤ (queue_length r) (pos 0))) [
          | inl empty ↦ rw empty (
            refl,
            outside.counted srv.qid srv.qid w
                ∙ counted-zero srv.qid w (rw h (omega (arith, enough, word))) empty,
          )
          | inr more ↦ rw more (
              clear_loop-Emptied n srv st w2 ps left fit (omega (arith, enough))
                (omega (arith, word)))
        ]

    pub clear-Emptied :
        (n : ℕ) (srv : Srv) (st : State W) (w : W)
        → AllFit (held srv.qid w)
        → length (held srv.qid w) < n
        → n ≤ 2 ^ 31
        → Ensures
            (λ r st'. Emptied srv.qid st st')
            (msg_q_srv_clear k n (some srv) (record st { world = w }))
    unfolding msg_q_srv_clear msg_q_srv_length
    clear-Emptied n srv st w fit enough word =
        let (r, w1) = k.msg_qnum srv.qid w in
        let same = outside.counted srv.qid srv.qid w in
        elim (Bool-cases (eq_ℤ (queue_length r) (pos 0))) [
          | inl empty ↦
              rw empty (refl, same ∙ counted-zero srv.qid w (omega (arith, enough, word)) empty)
          | inr more ↦
              rw more (clear_loop-Emptied n srv st w1 (held srv.qid w) same fit enough word)
        ]
