-- ===== src/Serial.antt =====
-- RaspberryPiSerial (common.go): the serial number of the board as a PeerID, and the functions of
-- strings and encoding/hex that it calls.
use p2p_update.Common.{
  ℕ, suc, zero, ◌+◌, ◌*◌, ◌-◌, ◌%◌, ◌≡◌, Bool, ◌&&◌, Option, none, some, List, [], ◌∷◌, Text, codes,
  if◌then◌else◌, ltb, leb, eqb, length, take, Outcome, ok, err, panic, ◌==◌, bytes_eq,
}
use p2p_update.Peer.{PeerId}
pub mod Value
mod Tests

-- strings.Split on one byte: the pieces between its occurrences.
abbrev pub onto_first : ℕ → List Text → List Text
onto_first c [] = (c ∷ []) ∷ []
onto_first c (p ∷ ps) = (c ∷ p) ∷ ps

abbrev pub split : ℕ → Text → List Text
split sep [] = [] ∷ []
split sep (c ∷ t) = let rest = split sep t in if eqb c sep then [] ∷ rest else onto_first c rest

-- strings.TrimLeft on one byte.
abbrev pub trim_left : ℕ → Text → Text
trim_left b [] = []
trim_left b (c ∷ t) = let rest = trim_left b t in if eqb c b then rest else c ∷ t

abbrev pub zero_digit : ℕ
zero_digit = 48

unfoldable pub digit : ℕ → Option ℕ
digit c =
    if leb 48 c && leb c 57
    then some (c - 48)
    else if leb 97 c && leb c 102
    then some (c - 87)
    else if leb 65 c && leb c 70
    then some (c - 55)
    else none

abbrev join_digits : Option ℕ → Option ℕ → Option (List ℕ) → Option (List ℕ)
join_digits (some a) (some b) (some bs) = some ((16 * a + b) ∷ bs)
join_digits _ _ _ = none

-- hex.DecodeString: a character that is no digit and an odd length are errors.
abbrev pub decode_string : Text → Option (List ℕ)
decode_string [] = some []
decode_string (c ∷ []) = none
decode_string (c ∷ d ∷ t) = join_digits (digit c) (digit d) (decode_string t)

abbrev pub reverse_onto : List ℕ → List ℕ → List ℕ
reverse_onto [] ys = ys
reverse_onto (x ∷ xs) ys = reverse_onto xs (x ∷ ys)

-- The loop that fills the identifier from its end with the bytes, the last one first.
abbrev pub fill_back : ℕ → List ℕ → PeerId → PeerId
fill_back zero bs pid = pid
fill_back (suc j) [] pid = fill_back j [] (0 ∷ pid)
fill_back (suc j) (b ∷ bs) pid = fill_back j bs (b ∷ pid)

pub data SerialError : Type 0 where
  cannot_open failed_converting failed_to_read not_found : SerialError

abbrev pub padded : Text → Text
padded s = if eqb (length s % 2) 1 then zero_digit ∷ s else s

abbrev pub identifier : Option (List ℕ) → Outcome SerialError PeerId
identifier none = err failed_converting
identifier (some serial) = ok (fill_back 6 (reverse_onto serial []) [])

-- The pieces of a line at its spaces. The second one is indexed without a test.
abbrev pub read_pieces : List Text → Outcome SerialError PeerId
read_pieces (label ∷ s ∷ rest) = identifier (decode_string (padded (trim_left zero_digit s)))
read_pieces _ = panic

abbrev pub is_serial_line : Text → Bool
is_serial_line line = ltb 10 (length line) && (take 7 line == codes "Serial\t")

-- The loop over the lines, and what the scanner's error makes of its end.
unfoldable pub read_lines : List Text → Bool → Outcome SerialError PeerId
read_lines [] failed = if failed then err failed_to_read else err not_found
read_lines (line ∷ lines) failed =
    let rest = read_lines lines failed in
    if is_serial_line line then read_pieces (split 32 line) else rest

-- The lines of /proc/cpuinfo with whether the scanner failed after them, or `none` where the file
-- cannot be opened.
unfoldable pub raspberry_pi_serial : Option (List Text × Bool) → Outcome SerialError PeerId
raspberry_pi_serial none = err cannot_open
raspberry_pi_serial (some (lines, failed)) = read_lines lines failed
