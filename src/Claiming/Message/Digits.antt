-- ===== src/Claiming/Message/Digits.antt =====
-- The digits of the message are those of its length, and its hex part can be read back
-- (pallets/claiming/src/lib.rs).
use power_plant.Prelude.{
  ℕ, zero, suc, ◌+◌, ◌-◌, ◌*◌, ◌/◌, ◌%◌, ◌≤◌, ◌<◌, ◌≡◌, refl, ◌&&◌, Option, none, some, List, [],
  ◌∷◌, arith, leb, if◌then◌else◌, length,
}
use power_plant.Claiming.Message.{nibble, to_ascii_hex, push_digits}

-- The number that ASCII digits stand for, the last digit first.
pub value_of : List ℕ → ℕ
value_of [] = 0
value_of (d ∷ ds) = (d - 48) + 10 * value_of ds

abbrev pub IsDigits : List ℕ → Type 0
IsDigits [] = Unit
IsDigits (d ∷ ds) = (48 ≤ d) × (d ≤ 57) × IsDigits ds

-- With as many turns as the number itself, or more, the loop ends with the decimal digits of the number.
pub push_digits_lem :
    (fuel l : ℕ) → l ≤ fuel → (value_of (push_digits fuel l) ≡ l) × IsDigits (push_digits fuel l)
unfolding push_digits value_of
push_digits_lem zero l h = (ground arith, tt)
push_digits_lem (suc fuel) zero h = (ground arith, ground arith)
push_digits_lem (suc fuel) (suc l) h =
    let (p, q) = push_digits_lem fuel (suc l / 10) (omega arith) in (ground arith, ground arith)

-- What a hex digit stands for, and the bytes that hex digits stand for.
abbrev pub nibble_value : ℕ → Option ℕ
nibble_value c =
    if leb 48 c && leb c 57
    then some (c - 48)
    else if leb 97 c && leb c 102
    then some (c - 87)
    else none

abbrev pub byte : Option ℕ → Option ℕ → Option (List ℕ) → Option (List ℕ)
byte (some high) (some low) (some bs) = some ((16 * high + low) ∷ bs)
byte (some high) (some low) none = none
byte (some high) none rest = none
byte none low rest = none

pub from_hex : List ℕ → Option (List ℕ)
from_hex [] = some []
from_hex (c ∷ []) = none
from_hex (c ∷ d ∷ cs) = byte (nibble_value c) (nibble_value d) (from_hex cs)

abbrev pub AreBytes : List ℕ → Type 0
AreBytes [] = Unit
AreBytes (b ∷ bs) = (b < 256) × AreBytes bs

nibble_value-nibble : (n : ℕ) → n < 16 → nibble_value (nibble n) ≡ some n
nibble_value-nibble n h = ground arith

-- The hex form of bytes is twice as long, and reads back as the same bytes.
pub from_hex-to_ascii_hex :
    (bs : List ℕ)
    → AreBytes bs
    → (from_hex (to_ascii_hex bs) ≡ some bs) × (length (to_ascii_hex bs) ≡ 2 * length bs)
unfolding from_hex to_ascii_hex
from_hex-to_ascii_hex [] h = (refl, refl)
from_hex-to_ascii_hex (b ∷ bs) (lt, h) =
    let (p, q) = from_hex-to_ascii_hex bs h in
    (
      rw (nibble_value-nibble (b / 16) (omega arith), nibble_value-nibble (b % 16) (omega arith), p)
          (ground arith),
      omega arith,
    )
