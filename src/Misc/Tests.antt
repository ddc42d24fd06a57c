-- ===== src/Misc/Tests.antt =====
-- `run_cmd` of linux/src/misc.c on three lines, and the theorem at them.
use libjoe.Base.{◌≡◌, refl, some, List, [], ◌∷◌, arith, pos, minus_one, eq_ℤ, if◌then◌else◌, ok}
use libjoe.Misc.Functions.{Text, System, run_cmd, read_loop, fgets, strstr}
use libjoe.Misc.Reading.{join, Pieces, calls, run_cmd-calls}

abbrev output : Text
output = b'o' ∷ b'n' ∷ 10 ∷ b'n' ∷ b'o' ∷ 10 ∷ b'o' ∷ b'f' ∷ b'f' ∷ []

-- The world is the lines that were passed on, the last one first.
abbrev system : System (List Text)
system = record {
  popen = λ cmd w. (some output, w);
  pclose = λ w. (pos 0, w);
  system = λ cmd w. (pos 0, w);
}

abbrev key : Text
key = b'n' ∷ []

abbrev keep : Text → List Text → List Text
keep line w = line ∷ w

run_cmd_two :
    run_cmd system 10 (some key) (some keep) (some []) []
    ≡ ok (pos 0) ((b'n' ∷ b'o' ∷ 10 ∷ []) ∷ (b'o' ∷ b'n' ∷ 10 ∷ []) ∷ [])
unfolding run_cmd read_loop fgets strstr
run_cmd_two = refl

run_cmd-calls_example :
    (ps : List Text) × (join ps ≡ output)
    × Pieces ps
    × (let (res, w2) = system.pclose (calls key keep ps []) in
        run_cmd system 10 (some key) (some keep) (some []) []
        ≡ ok (if eq_ℤ res (pos 0) then pos 0 else minus_one) w2)
run_cmd-calls_example = run_cmd-calls system 10 key [] output keep [] [] refl (omega arith)
