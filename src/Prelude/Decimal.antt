-- ===== src/Prelude/Decimal.antt =====
-- The text of a number in an f-string.
use Prim.Native.Nat.{ℕ, zero, suc, ◌/◌, ◌%◌}
use Prim.Native.String.{String, ◌++◌ as text_append}
use simple_a2a_registry.Prelude.Tests.{ltb, nat_eq, if◌then◌else◌}

digit : ℕ → String
digit d =
    if nat_eq d 0
    then "0"
    else if nat_eq d 1
    then "1"
    else if nat_eq d 2
    then "2"
    else if nat_eq d 3
    then "3"
    else if nat_eq d 4
    then "4"
    else if nat_eq d 5
    then "5"
    else if nat_eq d 6
    then "6"
    else if nat_eq d 7
    then "7"
    else if nat_eq d 8
    then "8"
    else "9"

-- A number has fewer digits than its successor says, so that fuel is enough.
digits : ℕ → ℕ → String
unfolding digit
digits zero n = ""
digits (suc fuel) n =
    let shorter = digits fuel (n / 10) in
    if ltb n 10 then digit n else text_append shorter (digit (n % 10))

unfoldable pub str_int : ℕ → String
unfolding digits
str_int n = digits (suc n) n

-- f"{a}:{b}"
unfoldable pub colon_text : String → String → String
colon_text a b = text_append a (text_append ":" b)
