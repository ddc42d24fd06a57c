-- ===== src/Misc/Functions.antt =====
-- `run_cmd` and `exe_cmd` of linux/src/misc.c, statement by statement, as commands over the world outside. A
-- text is the list of its bytes without the one that ends it, `none` a NULL pointer; no byte of it is 0. `n`
-- bounds the rounds of the loop of `run_cmd`.
use Prim.Native.Char.{code}
use Prim.Native.String.{String}
use libjoe.Base.{
  length, ℕ, zero, suc, Bool, true, false, ◌&&◌, ◌||◌, Option, none, some, List, [], ◌∷◌, ℤ, pos,
  minus_one, eq_ℤ, ◌==◌, if◌then◌else◌, take, Run, ok, out_of_fuel, pure, ◌>>=◌, ◌>>◌,
}

abbrev pub Text : Type 0
Text = List ℕ

abbrev pub Cmd : Type 0 → Type 0 → Type 0
Cmd W A = W → Run W A

-- The calls of the operating system. `popen` answers all that the command will print, `none` for NULL.
pub record System (W : Type 0) : Type 0 where
  pub popen : Text → W → Option Text × W
  pub pclose : W → ℤ × W
  pub system : Text → W → ℤ × W

-- `char cmd[256]`, `char line[512]`, less the byte that ends a text
abbrev pub cmd_length : ℕ
cmd_length = 255

abbrev pub line_length : ℕ
line_length = 511

-- What `fgets` stores, with room for `n` bytes, and what is left to read.
unfoldable pub fgets : (n : ℕ) → Text → Text × Text
fgets zero s = ([], s)
fgets (suc n) [] = ([], [])
fgets (suc n) (c ∷ s) =
    let (line, rest) = fgets n s in if c == 10 then (c ∷ [], s) else (c ∷ line, rest)

unfoldable pub starts_with : Text → (key : Text) → Bool
starts_with s [] = true
starts_with [] (k ∷ key) = false
starts_with (c ∷ s) (k ∷ key) = c == k && starts_with s key

-- Whether `strstr` finds the key.
unfoldable pub strstr : Text → (key : Text) → Bool
unfolding starts_with
strstr [] key = starts_with [] key
strstr (c ∷ s) key = starts_with (c ∷ s) key || strstr s key

module _ {W : Type 0} where
  abbrev pub call : {A : Type 0} → (W → A × W) → Cmd W A
  call f w = let (a, w') = f w in ok a w'

  abbrev pub effect : (W → W) → Cmd W (Unit {0})
  effect f w = ok tt (f w)

  -- The loop of `run_cmd`, on what is left to read.
  unfoldable pub read_loop : ℕ → (key : Text) → (func : Text → W → W) → Text → Cmd W (Unit {0})
  read_loop zero key func s = λ w. out_of_fuel
  read_loop (suc n) key func [] = pure tt
  read_loop (suc n) key func (c ∷ s) = do
    let (line, rest) = fgets line_length (c ∷ s)
    if strstr line key
        then (do effect (func line); read_loop n key func rest)
        else read_loop n key func rest

module _ {W : Type 0} (k : System W) where
  abbrev pub after_popen : ℕ → (key : Text) → (func : Text → W → W) → Option Text → Cmd W ℤ
  after_popen n key func none = pure minus_one
  after_popen n key func (some output) = do
    read_loop n key func output
    res ← call k.pclose
    pure (if eq_ℤ res (pos 0) then pos 0 else minus_one)

  -- `text` is what `vsnprintf` would make of the format and the arguments with no limit.
  unfoldable pub run_cmd :
      ℕ → (key : Option Text) → (func : Option (Text → W → W)) → (text : Option Text) → Cmd W ℤ
  run_cmd n none func text = pure minus_one
  run_cmd n (some key) none text = pure minus_one
  run_cmd n (some key) (some func) none = pure minus_one
  run_cmd n (some key) (some func) (some text) = do
    output ← call (k.popen (take cmd_length text))
    after_popen n key func output

  unfoldable pub exe_cmd : (text : Text) → Cmd W ℤ
  exe_cmd text = call (k.system (take cmd_length text))

-- The bytes of a text, if it is ASCII.
abbrev pub bytes : String → Text
bytes String.[] = []
bytes (String.◌∷◌ c s) = code c ∷ bytes s

-- `text` is what `localtime` and the format make of the time, `utc` the buffer, of `len` bytes.
unfoldable pub epoch2utc : (text : Text) → (utc : Option Text) → (len : ℕ) → ℤ × Option Text
epoch2utc text none len = (pos 0, none)
epoch2utc text (some old) zero = (pos 0, some old)
epoch2utc text (some old) (suc len) = (pos (length text), some (take len text))
