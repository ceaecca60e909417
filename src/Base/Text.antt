-- ===== src/Base/Text.antt =====
-- Python's `str.strip`, which drops white space at both ends, and decimal numerals.
use Prim.Native.Nat.{ℕ, zero, suc, ◌/◌, ◌%◌}
use Prim.Native.Char.{Char, code}
use Prim.Native.String.{String, [], ◌∷◌, ◌++◌}
use mathlib.Core.Path.{◌≡◌, refl}
use mathlib.Core.Bool.{Bool, ◌&&◌, ◌||◌}
use mvp_master.Base.Tests.{ltb, leb, nat_beq, if◌then◌else◌}

-- The code points for which `str.isspace` holds.
abbrev is_space : ℕ → Bool
is_space c =
    leb 9 c && leb c 13
    || leb 28 c && leb c 32
    || nat_beq c 133
    || nat_beq c 160
    || nat_beq c 5760
    || leb 8192 c && leb c 8202
    || nat_beq c 8232
    || nat_beq c 8233
    || nat_beq c 8239
    || nat_beq c 8287
    || nat_beq c 12288

strip_left : String → String
strip_left [] = []
strip_left (c ∷ s) = let rest = strip_left s in if is_space (code c) then rest else c ∷ s

abbrev drop_space : Char → String → String
drop_space c [] = if is_space (code c) then [] else c ∷ []
drop_space c (d ∷ s) = c ∷ d ∷ s

strip_right : String → String
strip_right [] = []
strip_right (c ∷ s) = drop_space c (strip_right s)

unfoldable pub strip : String → String
unfolding strip_left strip_right
strip s = strip_right (strip_left s)

abbrev digit : ℕ → String
digit zero = "0"
digit (suc zero) = "1"
digit (suc (suc zero)) = "2"
digit (suc (suc (suc zero))) = "3"
digit (suc (suc (suc (suc zero)))) = "4"
digit (suc (suc (suc (suc (suc zero))))) = "5"
digit (suc (suc (suc (suc (suc (suc zero)))))) = "6"
digit (suc (suc (suc (suc (suc (suc (suc zero))))))) = "7"
digit (suc (suc (suc (suc (suc (suc (suc (suc zero)))))))) = "8"
digit _ = "9"

-- The digits of a number, of which there are no more than the fuel.
decimal_within : ℕ → ℕ → String
decimal_within zero n = []
decimal_within (suc fuel) n =
    let before = decimal_within fuel (n / 10) in
    if ltb n 10 then digit n else before ++ digit (n % 10)

-- Python's `str` of an `int` that is not negative
unfoldable pub decimal : ℕ → String
unfolding decimal_within
decimal n = decimal_within (suc n) n

decimal_runs : decimal 1_207 ≡ "1207"
unfolding decimal
decimal_runs = refl
