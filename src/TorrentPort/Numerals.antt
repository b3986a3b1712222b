-- ===== src/TorrentPort/Numerals.antt =====
-- Reading back the port of an address (torrentClientConfig in agent.go).
use p2p_update.Common.{
  ℕ, ◌+◌, ◌-◌, ◌^◌, ◌/◌, ◌%◌, ◌≡◌, ◌<◌, refl, true, false, [], ◌∷◌, ◌++◌, Text, if◌then◌else◌, ltb,
  eqb, arith, decimal_from, decimal, All, All-append,
}
use p2p_update.Common.Numerals.{
  number_from, number_from-decimal_from, IsDigit, decimal_from-IsDigit,
}
use p2p_update.TorrentPort.{
  trim, trim_front, trim_back, onto_trimmed, is_blank, all_digits, is_numeral, colon, has_port,
  after_colon, atoi, overlay_port,
}

all_digits-All : (t : Text) → All IsDigit t → all_digits t ≡ true
all_digits-All [] h = refl
all_digits-All (c ∷ t) h = rw (h.0) (all_digits-All t h.1)

is_numeral-decimal : (n : ℕ) → is_numeral (decimal n) ≡ true
unfolding decimal decimal_from
is_numeral-decimal n =
    ends (if ltb n 10 then [] else decimal_from 19 (n / 10)) (48 + n % 10)
      (decimal_from-IsDigit 20 n)
  where
    ends : (t : Text) (c : ℕ) → All IsDigit (t ++ c ∷ []) → is_numeral (t ++ c ∷ []) ≡ true
    ends [] c h = all_digits-All (c ∷ []) h
    ends (d ∷ t) c h = all_digits-All (d ∷ t ++ c ∷ []) h

-- A character that is neither white space nor a colon.
abbrev pub IsPlain : ℕ → Type 0
IsPlain c = (is_blank c ≡ false) × (eqb c colon ≡ false)

has_port-append :
    (host ds : Text)
    → All IsPlain host
    → is_numeral ds ≡ true
    → (has_port (host ++ colon ∷ ds) ≡ true) × (after_colon (host ++ colon ∷ ds) ≡ ds)
unfolding has_port
has_port-append [] ds h numeral = (rw (numeral) refl, refl)
has_port-append (c ∷ host) ds h numeral =
    let (has, after) = has_port-append host ds h.1 numeral in
    (ground (arith, has, h.0.0), rw (h.0.1) after)

abbrev IsDark : ℕ → Type 0
IsDark c = is_blank c ≡ false

trim_front-dark : (t : Text) → All IsDark t → trim_front t ≡ t
trim_front-dark [] h = refl
trim_front-dark (c ∷ t) h = rw (h.0) refl

trim_back-dark : (t : Text) → All IsDark t → trim_back t ≡ t
trim_back-dark [] h = refl
trim_back-dark (c ∷ t) h = rw (trim_back-dark t h.1) (onto t h.0)
  where
    onto : (t : Text) {c : ℕ} → IsDark c → onto_trimmed c t ≡ c ∷ t
    onto [] d = rw (d) refl
    onto (b ∷ t) d = refl

trim-dark : (t : Text) → All IsDark t → trim t ≡ t
unfolding trim
trim-dark t h = rw (trim_front-dark t h) (trim_back-dark t h)

All-map : {P Q : ℕ → Type 0} (t : Text) → ((c : ℕ) → P c → Q c) → All P t → All Q t
All-map [] f h = tt
All-map (c ∷ t) f h = (f c h.0, All-map t f h.1)

digit-IsDark : (c : ℕ) → IsDigit c → IsDark c
digit-IsDark c d = ground arith

address-IsDark : (host : Text) (n : ℕ) → All IsPlain host → All IsDark (host ++ colon ∷ decimal n)
unfolding decimal
address-IsDark host n h =
    All-append IsDark host (colon ∷ decimal n) (All-map host (λ c p. p.0) h)
      (refl, All-map (decimal n) digit-IsDark (decimal_from-IsDigit 20 n))

atoi-eq : (t : Text) {n : ℕ} → is_numeral t ≡ true → number_from 0 t ≡ n → n < 2 ^ 63 → atoi t ≡ n
atoi-eq t numeral read small = rw (numeral, read) (in_range _ small)
  where
    in_range : (n : ℕ) → n < 2 ^ 63 → (if ltb n (2 ^ 63) then n else 2 ^ 63 - 1) ≡ n
    in_range n small = ground arith

-- The port of the overlay is read back from an address that consists of a host without white space
-- and colons, a colon and the decimal numeral of a port below 2^63.
pub overlay_port-decimal :
    (host : Text) (n : ℕ)
    → All IsPlain host
    → n < 2 ^ 63
    → overlay_port (host ++ colon ∷ decimal n) ≡ n
unfolding overlay_port decimal
overlay_port-decimal host n h small =
    let numeral = is_numeral-decimal n in
    let (has, after) = has_port-append host (decimal n) h numeral in
    let read = number_from-decimal_from 20 n (omega (arith, small)) in
    rw (trim-dark (host ++ colon ∷ decimal n) (address-IsDark host n h), has, after)
      (atoi-eq (decimal n) numeral read small)
