-- ===== src/Serial/Tests.antt =====
-- Tests of Serial.antt.
use p2p_update.Common.{◌≡◌, refl, false, some, [], ◌∷◌, codes, bytes_eq, panic, Text}
use p2p_update.Serial.{read_lines, raspberry_pi_serial}

abbrev hardware : Text
hardware = codes "Hardware\t: BCM2835"

abbrev serial_line : Text
serial_line = codes "Serial\t\t: 00000000abcdef12"

-- A line without a space.
no_space_test : raspberry_pi_serial (some (codes "Serial\t\t:00000000abcdef12" ∷ [], false)) ≡ panic
unfolding raspberry_pi_serial read_lines
no_space_test = refl
