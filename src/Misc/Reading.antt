-- ===== src/Misc/Reading.antt =====
-- Which lines `run_cmd` of linux/src/misc.c passes on.
use libjoe.Base.{
  inl, inr, ◌⊎◌, ℕ, zero, suc, ◌≤◌, ◌<◌, ◌≡◌, refl, ap, ◌∙◌, Bool, true, false, some, List, [], ◌∷◌,
  ◌++◌, arith, pos, minus_one, eq_ℤ, ◌==◌, if◌then◌else◌, Bool-cases, length, length-append, take,
  ok, ◌>>=◌,
}
use libjoe.Misc.Functions.{
  Cmd, effect, Text, System, cmd_length, line_length, fgets, strstr, read_loop, run_cmd,
}

abbrev pub join : List Text → Text
join [] = []
join (p ∷ ps) = p ++ join ps

-- A byte 10 stands nowhere but at the end.
abbrev pub IsLine : Text → Type 0
IsLine [] = Unit {0}
IsLine (c ∷ []) = Unit {0}
IsLine (c ∷ d ∷ s) = ((c == 10) ≡ false) × IsLine (d ∷ s)

-- The last byte is 10.
abbrev pub ends_line : Text → Bool
ends_line [] = false
ends_line (c ∷ []) = c == 10
ends_line (c ∷ d ∷ s) = ends_line (d ∷ s)

-- The piece goes on as far as it can: to the end of its line, to 511 bytes, or to the end of the text.
abbrev pub IsWhole : Text → (rest : Text) → Type 0
IsWhole p rest = (ends_line p ≡ true) ⊎ (length p ≡ 511) ⊎ (rest ≡ [])

-- The lines of a text, those of more than 511 bytes cut into pieces of 511 and what is left.
abbrev pub Pieces : List Text → Type 0
Pieces [] = Unit {0}
Pieces (p ∷ ps) = (0 < length p) × (length p ≤ 511) × IsLine p × IsWhole p (join ps) × Pieces ps

-- `func` is called on each piece in which the key stands, in order.
unfoldable pub calls : {W : Type 0} → (key : Text) → (func : Text → W → W) → List Text → W → W
calls key func [] w = w
calls key func (p ∷ ps) w = calls key func ps (if strstr p key then func p w else w)

fgets-append : (n : ℕ) (s : Text) → (fgets n s).0 ++ (fgets n s).1 ≡ s
unfolding fgets
fgets-append zero s = refl
fgets-append (suc n) [] = refl
fgets-append (suc n) (c ∷ s) = elim (Bool-cases (c == 10)) [
  | inl e ↦ rw e refl
  | inr e ↦ rw e (ap (λ r. c ∷ r) (fgets-append n s))
]

length-fgets : (n : ℕ) (s : Text) → length (fgets n s).0 ≤ n
unfolding fgets
length-fgets zero s = omega arith
length-fgets (suc n) [] = omega arith
length-fgets (suc n) (c ∷ s) = elim (Bool-cases (c == 10)) [
  | inl e ↦ rw e (omega arith)
  | inr e ↦ rw e (omega (arith, length-fgets n s))
]

fgets-pos : (n c : ℕ) (s : Text) → 0 < length (fgets (suc n) (c ∷ s)).0
unfolding fgets
fgets-pos n c s = elim (Bool-cases (c == 10)) [
  | inl e ↦ rw e (omega arith)
  | inr e ↦ rw e (omega arith)
]

IsLine-cons : (c : ℕ) (s : Text) → (c == 10) ≡ false → IsLine s → IsLine (c ∷ s)
IsLine-cons c [] e h = tt
IsLine-cons c (d ∷ s) e h = (e, h)

fgets-IsLine : (n : ℕ) (s : Text) → IsLine (fgets n s).0
unfolding fgets
fgets-IsLine zero s = tt
fgets-IsLine (suc n) [] = tt
fgets-IsLine (suc n) (c ∷ s) = elim (Bool-cases (c == 10)) [
  | inl e ↦ rw e tt
  | inr e ↦ rw e (IsLine-cons c (fgets n s).0 e (fgets-IsLine n s))
]

ends_line-cons : (c : ℕ) (s : Text) → ends_line s ≡ true → ends_line (c ∷ s) ≡ true
ends_line-cons c [] e = cc e
ends_line-cons c (d ∷ s) e = e

-- `fgets` stops at the end of a line, where its room ends, or at the end of the text.
fgets-stops :
    (n : ℕ) (s : Text)
    → (ends_line (fgets n s).0 ≡ true) ⊎ (length (fgets n s).0 ≡ n) ⊎ ((fgets n s).1 ≡ [])
unfolding fgets
fgets-stops zero s = inr (inl refl)
fgets-stops (suc n) [] = inr (inr refl)
fgets-stops (suc n) (c ∷ s) = elim (Bool-cases (c == 10)) [
  | inl e ↦ rw e (inl e)
  | inr e ↦ rw e (elim (fgets-stops n s) [
    | inl line ↦ inl (ends_line-cons c (fgets n s).0 line)
    | inr (inl full) ↦ inr (inl (omega (arith, full)))
    | inr (inr last) ↦ inr (inr last)
  ])
]

module _ {W : Type 0} (key : Text) (func : Text → W → W) where
  round :
      (b : Bool) (f : W → W) (m : Cmd W (Unit {0})) (w : W)
      → (if◌then◌else◌ {A = Cmd W (Unit {0})} b (effect f >>= λ u. m) m) w
        ≡ m (if b then f w else w)
  round true f m w = refl
  round false f m w = refl

  read_loop-calls :
      (n : ℕ) (s : Text) (w : W)
      → length s < n
      → (ps : List Text) × (join ps ≡ s)
        × Pieces ps
        × (read_loop n key func s w ≡ ok tt (calls key func ps w))
  unfolding read_loop calls
  read_loop-calls zero s w h = absurd (omega arith)
  read_loop-calls (suc n) [] w h = ([], refl, tt, refl)
  read_loop-calls (suc n) (c ∷ s) w h =
      let (line, rest) = fgets line_length (c ∷ s) in
      let whole : line ++ rest ≡ c ∷ s = fgets-append line_length (c ∷ s) in
      let some_byte : 0 < length line = fgets-pos 510 c s in
      let shorter : length rest < n =
        omega (arith, ap (λ (t : Text). length t) whole, length-append line rest) in
      let w' : W = if strstr line key then func line w else w in
      let (ps, joined, pieces, run) = read_loop-calls n rest w' shorter in
      let whole_piece : IsWhole line (join ps) = rw joined (fgets-stops line_length (c ∷ s)) in
      (
        line ∷ ps,
        ap (λ t. line ++ t) joined ∙ whole,
        (
          some_byte,
          length-fgets line_length (c ∷ s),
          fgets-IsLine line_length (c ∷ s),
          whole_piece,
          pieces,
        ),
        round (strstr line key) (func line) (read_loop n key func rest) w ∙ run,
      )

-- When `popen` succeeds, and with one round more than the output has bytes, `run_cmd` reads all of it, line
-- by line, a line of more than 511 bytes in pieces of 511 and what is left. It calls `func` on those pieces in which the key stands, in order, and
-- on no other, and returns 0 if `pclose` does, -1 otherwise. The command is cut off after 255 bytes.
pub run_cmd-calls :
    {W : Type 0} (k : System W) (n : ℕ) (key text output : Text) (func : Text → W → W) (w w1 : W)
    → k.popen (take cmd_length text) w ≡ (some output, w1)
    → length output < n
    → (ps : List Text) × (join ps ≡ output)
      × Pieces ps
      × (let (res, w2) = k.pclose (calls key func ps w1) in
          run_cmd k n (some key) (some func) (some text) w
          ≡ ok (if eq_ℤ res (pos 0) then pos 0 else minus_one) w2)
unfolding run_cmd
run_cmd-calls k n key text output func w w1 opened h =
    let (ps, joined, pieces, run) = read_loop-calls key func n output w1 h in
    (ps, joined, pieces, rw (opened, run) refl)
