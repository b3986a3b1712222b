-- ===== src/Serial/Value.antt =====
-- The number that RaspberryPiSerial (common.go) reads.
use p2p_update.Common.{ℕ, ◌+◌, ◌*◌, Option, none, some, List, [], ◌∷◌, Text, bytes_eq, ◌<◌}
use p2p_update.Serial.{digit}

-- The number of a hexadecimal numeral, and of bytes, the most significant first.
abbrev pub hex_from : ℕ → Text → Option ℕ
hex_from acc [] = some acc
hex_from acc (c ∷ t) = elim (digit c) [ none ↦ none | some d ↦ hex_from (16 * acc + d) t ]

abbrev pub bytes_from : ℕ → List ℕ → ℕ
bytes_from acc [] = acc
bytes_from acc (b ∷ bs) = bytes_from (256 * acc + b) bs

abbrev little : List ℕ → ℕ
little [] = 0
little (b ∷ bs) = b + 256 * little bs

abbrev IsByte : ℕ → Type 0
IsByte b = b < 256
