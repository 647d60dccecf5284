-- ===== src/Claiming/Message.antt =====
-- The message that a claim signs (`ethereum_signable_message` and `to_ascii_hex` of
-- pallets/claiming/src/lib.rs). Bytes are numbers below 256.
pub mod Digits
use power_plant.Prelude.{
  ℕ, zero, suc, ◌+◌, ◌-◌, ◌/◌, ◌%◌, List, [], ◌∷◌, ◌++◌, ltb, if◌then◌else◌, length,
}

-- `push_nibble`
abbrev pub nibble : ℕ → ℕ
nibble n = if ltb n 10 then 48 + n else 97 - 10 + n

unfoldable pub to_ascii_hex : List ℕ → List ℕ
to_ascii_hex [] = []
to_ascii_hex (b ∷ bs) = nibble (b / 16) ∷ nibble (b % 16) ∷ to_ascii_hex bs

-- The loop that pushes the decimal digits of `l`, the last digit first; each turn divides `l` by 10, so
-- `l` turns are enough.
unfoldable pub push_digits : ℕ → ℕ → List ℕ
push_digits zero l = []
push_digits (suc fuel) l =
    let rest = push_digits fuel (l / 10) in if ltb 0 l then (48 + l % 10) ∷ rest else []

unfoldable pub reverse_onto : List ℕ → List ℕ → List ℕ
reverse_onto [] ys = ys
reverse_onto (x ∷ xs) ys = reverse_onto xs (x ∷ ys)

-- "\x19Ethereum Signed Message:\n"
abbrev pub ethereum_prefix : List ℕ
ethereum_prefix =
    25 ∷ 69 ∷ 116 ∷ 104 ∷ 101 ∷ 114 ∷ 101 ∷ 117 ∷ 109 ∷ 32 ∷ 83 ∷ 105 ∷ 103 ∷ 110 ∷ 101 ∷ 100 ∷ 32
    ∷ 77 ∷ 101 ∷ 115 ∷ 115 ∷ 97 ∷ 103 ∷ 101 ∷ 58 ∷ 10 ∷ []

unfoldable pub ethereum_signable_message : List ℕ → List ℕ → List ℕ → List ℕ
ethereum_signable_message prefix what extra =
    let l = length prefix + length what + length extra in
    ethereum_prefix ++ reverse_onto (push_digits l l) [] ++ prefix ++ what ++ extra
