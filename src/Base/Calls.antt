-- ===== src/Base/Calls.antt =====
-- What a call of the operating system answers.

-- `errno` after a call that fails
pub data Errno : Type 0 where
  eintr eagain enoent enomsg eidrm e2big unknown : Errno

pub data Answer (A : Type 0) : Type 0 where
  got : A → Answer A
  failed : Errno → Answer A
