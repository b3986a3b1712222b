-- ===== src/Peer/Ports.antt =====
-- The wire form of torrent ports (common.go).
use p2p_update.Common.{
  ℕ, ◌%◌, ◌^◌, ◌≤◌, ◌<◌, ◌≡◌, ◌↔◌, refl, Option, none, some, List, [], ◌∷◌, ◌++◌, arith, ap, length,
  take, drop, Outcome, ok, panic, ◌>>=◌, require, in_range, ◌⊎◌, inl, inr,
}
use p2p_update.Stun.{Stun, AttributeLaws, attr_even_port}
use p2p_update.Peer.{
  TorrentPorts, PortsError, no_even_port, put_uint32, uint32, torrent_ports_add_to,
  torrent_ports_get_from,
}

uint32-put_uint32 : (n : ℕ) → uint32 (put_uint32 n) ≡ some (n % 2 ^ 32)
unfolding uint32 put_uint32
uint32-put_uint32 n = ap some (omega arith)

take-put_uint32 : (n : ℕ) (rest : List ℕ) → take 4 (put_uint32 n ++ rest) ≡ put_uint32 n
unfolding put_uint32
take-put_uint32 n rest = refl

drop-put_uint32 : (n : ℕ) (rest : List ℕ) → drop 4 (put_uint32 n ++ rest) ≡ rest
unfolding put_uint32
drop-put_uint32 n rest = refl

-- The value of the attribute, read as two words.
words : List ℕ → Outcome PortsError TorrentPorts
words b = do
  external ← in_range (uint32 (take 4 b))
  internal ← in_range (uint32 (drop 4 b))
  ok (record { external = external; internal = internal })

words-put_uint32 :
    (m n : ℕ)
    → words (put_uint32 m ++ put_uint32 n)
      ≡ ok (record { external = m % 2 ^ 32; internal = n % 2 ^ 32 })
unfolding words
words-put_uint32 m n = rw (
  take-put_uint32 m (put_uint32 n),
  drop-put_uint32 m (put_uint32 n),
  uint32-put_uint32 m,
  uint32-put_uint32 n,
)

-- Whether the words are there is a matter of length alone.
words_cases :
    (b : List ℕ)
    → ((words b ≡ panic) × (length b < 8))
      ⊎ ((tp : TorrentPorts) × (words b ≡ ok tp) × (8 ≤ length b))
unfolding words uint32
words_cases (a ∷ b ∷ c ∷ d ∷ e ∷ f ∷ g ∷ h ∷ rest) = inr (_, refl, omega arith)
words_cases [] = inl (refl, omega arith)
words_cases (a ∷ []) = inl (refl, omega arith)
words_cases (a ∷ b ∷ []) = inl (refl, omega arith)
words_cases (a ∷ b ∷ c ∷ []) = inl (refl, omega arith)
words_cases (a ∷ b ∷ c ∷ d ∷ []) = inl (refl, omega arith)
words_cases (a ∷ b ∷ c ∷ d ∷ e ∷ []) = inl (refl, omega arith)
words_cases (a ∷ b ∷ c ∷ d ∷ e ∷ f ∷ []) = inl (refl, omega arith)
words_cases (a ∷ b ∷ c ∷ d ∷ e ∷ f ∷ g ∷ []) = inl (refl, omega arith)

module _ (s : Stun) where
  read_words :
      (m : s.Message)
      → torrent_ports_get_from s m ≡ (require no_even_port (s.get attr_even_port m) >>= words)
  unfolding torrent_ports_get_from words
  read_words m = refl

  -- Ports written on a message that holds none yet are read back modulo 2 ^ 32.
  pub torrent_ports_get_from-add_to :
      (laws : AttributeLaws s) (tp : TorrentPorts) (m m' : s.Message)
      → s.get attr_even_port m ≡ none
      → torrent_ports_add_to s tp m ≡ some m'
      → torrent_ports_get_from s m'
        ≡ ok (record { external = tp.external % 2 ^ 32; internal = tp.internal % 2 ^ 32 })
  unfolding torrent_ports_add_to
  torrent_ports_get_from-add_to laws tp m m' fresh written =
      let bytes = put_uint32 tp.external ++ put_uint32 tp.internal in
      rw (read_words m') (
        ground (
          arith,
          laws.get-add_self attr_even_port bytes m,
          words-put_uint32 tp.external tp.internal,
        ))

  -- Reading the ports panics exactly when the attribute is there with fewer than eight bytes.
  pub torrent_ports_get_from-panic_iff :
      (m : s.Message)
      → (torrent_ports_get_from s m ≡ panic)
        ↔ ((b : List ℕ) × (s.get attr_even_port m ≡ some b) × (length b < 8))
  torrent_ports_get_from-panic_iff m = (short (s.get attr_even_port m) refl, panics)
    where
      short :
          (o : Option (List ℕ))
          → s.get attr_even_port m ≡ o
          → torrent_ports_get_from s m ≡ panic
          → (b : List ℕ) × (s.get attr_even_port m ≡ some b) × (length b < 8)
      short none e h = absurd (ground (arith, read_words m))
      short (some b) e h = (b, e, ground (arith, read_words m, words_cases b))

      panics :
          ((b : List ℕ) × (s.get attr_even_port m ≡ some b) × (length b < 8))
          → torrent_ports_get_from s m ≡ panic
      panics (b, e, h) = ground (arith, read_words m, words_cases b)
