-- ===== src/MsgQ/Files.antt =====
-- `msgQ_get_qid` of linux/src/msgQ.c: the queue that belongs to a name.
use Prim.Native.String.{String}
use libjoe.Base.{
  Bool, true, false, Option, none, some, ℤ, minus_one, eq_ℤ, if◌then◌else◌, pure, ◌>>=◌,
}
use libjoe.MsgQ.System.{enoent, Answer, got, failed, System, Cmd}
use libjoe.MsgQ.Commands.{call}

module _ {W : Type 0} (k : System W) where
  -- Two calls that ask for the directory; true where it is missing and cannot be made.
  unfoldable pub no_directory : Cmd W Bool
  no_directory = do missing ← call k.stat; if missing then call k.mkdir else pure false

  -- The same for the key file.
  unfoldable pub no_key_file : String → Cmd W Bool
  no_key_file name = do
    there ← call (k.exists name)
    if there then pure false else call (k.create name)

  abbrev pub or_minus_one : Answer ℤ → ℤ
  or_minus_one (got q) = q
  or_minus_one (failed e) = minus_one

  abbrev pub after_msgget : (key : ℤ) → Answer ℤ → Cmd W ℤ
  after_msgget key (got q) = pure q
  after_msgget key (failed enoent) = do r ← call (k.msgget key true); pure (or_minus_one r)
  after_msgget key (failed e) = pure minus_one

  -- `msgget`, and again with `IPC_CREAT` where there is no such queue yet.
  unfoldable pub get_queue : (key : ℤ) → Cmd W ℤ
  get_queue key = do r ← call (k.msgget key false); after_msgget key r

  unfoldable pub msg_q_get_qid : Option String → Cmd W ℤ
  unfolding no_directory no_key_file get_queue
  msg_q_get_qid none = pure minus_one
  msg_q_get_qid (some name) = do
    failed_dir ← no_directory
    if failed_dir then pure minus_one else do
      failed_file ← no_key_file name
      if failed_file then pure minus_one else do
        key ← call (k.ftok name)
        if eq_ℤ key minus_one then pure minus_one else get_queue key
