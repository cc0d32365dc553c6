-- ===== src/Base/Int.antt =====
-- Signed integers over the native numbers, with the decimal texts that `std::to_string` gives
-- and `std::stoi` reads.
use Prim.Native.Nat.{ℕ, zero, suc, ◌+◌, ◌-◌, ◌*◌, ◌/◌, ◌%◌}
use Prim.Native.String.{String}
use Prim.Native.String
use Prim.Native.Char.{code}
use mathlib.Core.Bool.{Bool, true, false, ◌&&◌, ◌||◌}
use mesos_framework.Base.Tests.{ltb, eqb, if◌then◌else◌}

-- `negsuc n` is -(n + 1).
pub data ℤ : Type 0 where
  pos : ℕ → ℤ
  negsuc : ℕ → ℤ

-- a - b, as an integer.
abbrev pub sub_ℕ : ℕ → ℕ → ℤ
sub_ℕ a b = if ltb a b then negsuc (b - a - 1) else pos (a - b)

infixl 65 ◌-ℤ◌
unfoldable pub ◌-ℤ◌ : ℤ → ℕ → ℤ
pos a -ℤ b = sub_ℕ a b
negsuc a -ℤ b = negsuc (a + b)

abbrev digit : ℕ → String
digit zero = "0"
digit (suc zero) = "1"
digit (suc (suc zero)) = "2"
digit (suc (suc (suc zero))) = "3"
digit (suc (suc (suc (suc zero)))) = "4"
digit (suc (suc (suc (suc (suc zero))))) = "5"
digit (suc (suc (suc (suc (suc (suc zero)))))) = "6"
digit (suc (suc (suc (suc (suc (suc (suc zero))))))) = "7"
digit (suc (suc (suc (suc (suc (suc (suc (suc zero)))))))) = "8"
digit (suc (suc (suc (suc (suc (suc (suc (suc (suc n))))))))) = "9"

-- The decimal digits of a number, in front of a text. A number has at most that many digits, so
-- the number itself is fuel enough.
show_fuel : ℕ → ℕ → String → String
show_fuel zero n rest = String.◌++◌ (digit (n % 10)) rest
show_fuel (suc f) n rest =
    let more = show_fuel f (n / 10) (String.◌++◌ (digit (n % 10)) rest) in
    if ltb n 10 then String.◌++◌ (digit n) rest else more

-- `std::to_string`
unfoldable pub show : ℕ → String
unfolding show_fuel
show n = show_fuel n n ""

unfoldable pub show_ℤ : ℤ → String
unfolding show
show_ℤ (pos n) = show n
show_ℤ (negsuc n) = String.◌++◌ "-" (show (n + 1))

abbrev is_digit : ℕ → Bool
is_digit c = ltb 47 c && ltb c 58

abbrev pub is_space : ℕ → Bool
is_space c = eqb c 32 || (ltb 8 c && ltb c 14)

-- The longest run of digits at the head, `acc` being the number read before it.
digits_from : ℕ → String → ℕ
digits_from acc String.[] = acc
digits_from acc (String.◌∷◌ c s) =
    let rest = digits_from (acc * 10 + (code c - 48)) s in if is_digit (code c) then rest else acc

-- What `std::stoi` returns or throws.
pub data Parsed : Type 0 where
  value : ℤ → Parsed
  invalid_argument out_of_range : Parsed

abbrev int_max : ℕ
int_max = 2147483647

abbrev ranged : Bool → ℕ → Parsed
ranged negative n =
    if negative
    then (if ltb (int_max + 1) n then out_of_range else value (sub_ℕ 0 n))
    else (if ltb int_max n then out_of_range else value (pos n))

-- At least one digit has to follow the sign.
unsigned : Bool → String → Parsed
unfolding digits_from
unsigned negative String.[] = invalid_argument
unsigned negative (String.◌∷◌ c s) =
    if is_digit (code c) then ranged negative (digits_from 0 (String.◌∷◌ c s)) else invalid_argument

signed : String → Parsed
unfolding unsigned
signed String.[] = invalid_argument
signed (String.◌∷◌ c s) =
    if eqb (code c) b'-'
    then unsigned true s
    else (if eqb (code c) b'+' then unsigned false s else unsigned false (String.◌∷◌ c s))

-- `std::stoi`: blanks are skipped, then an optional sign and digits are read; what follows is left.
unfoldable pub stoi : String → Parsed
unfolding signed
stoi String.[] = invalid_argument
stoi (String.◌∷◌ c s) =
    let rest = stoi s in if is_space (code c) then rest else signed (String.◌∷◌ c s)

abbrev pub same_ℤ : ℤ → ℤ → Bool
same_ℤ (pos a) (pos b) = eqb a b
same_ℤ (negsuc a) (negsuc b) = eqb a b
same_ℤ _ _ = false
