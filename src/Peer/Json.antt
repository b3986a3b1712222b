-- ===== src/Peer/Json.antt =====
-- SessionTable.JSON (common.go), which writes the table of sessions by hand. The text of an address is
-- the library's.
use p2p_update.Common.{
  ℕ, suc, ◌≡◌, refl, ap, ◌∙◌, List, [], ◌∷◌, ◌++◌, Text, codes, if◌then◌else◌, ltb, arith, map,
}
use mathlib.Core.List.{append-nil}
use p2p_update.Stun.{UdpAddr}
use p2p_update.Peer.{PeerId, Session, SessionTable, peer_id_string}

abbrev pub quoted : Text → Text
quoted t = codes "\"" ++ t ++ codes "\""

-- if i > 0 { buf.WriteByte(',') }
abbrev pub comma_after : ℕ → Text
comma_after i = if ltb 0 i then codes "," else []

-- A comma between two of the texts in quotes: the loops of JSON, and of the views in api.go.
abbrev pub write_quoted : {A : Type 0} → (A → Text) → ℕ → List A → Text
write_quoted text i [] = []
write_quoted text i (a ∷ as') = comma_after i ++ (quoted (text a) ++ write_quoted text (suc i) as')

-- The specification: texts with commas between them.
abbrev pub joined : List Text → Text
joined [] = []
joined (t ∷ []) = t
joined (t ∷ u ∷ ts) = t ++ (codes "," ++ joined (u ∷ ts))

comma_after-suc : (i : ℕ) → comma_after (suc i) ≡ codes ","
comma_after-suc i = ground arith

pub write_quoted-joined :
    {A : Type 0} (text : A → Text) (a : A) (as' : List A) (i : ℕ)
    → write_quoted text i (a ∷ as') ≡ comma_after i ++ joined (map (λ a. quoted (text a)) (a ∷ as'))
write_quoted-joined text a [] i = ap (λ t. comma_after i ++ t) (append-nil (quoted (text a)))
write_quoted-joined text a (b ∷ as') i =
    ap (λ t. comma_after i ++ (quoted (text a) ++ t))
      (write_quoted-joined text b as' (suc i)
        ∙ ap (λ c. c ++ joined (map (λ a. quoted (text a)) (b ∷ as'))) (comma_after-suc i))

module _ (text : UdpAddr → Text) where
  -- The inner loop, from the index `j` on, and the outer one.
  abbrev pub write_addrs : ℕ → Session → Text
  write_addrs j s = write_quoted text j s

  abbrev pub write_entry : PeerId → Session → Text
  write_entry pid s = quoted (peer_id_string pid) ++ (codes ":[" ++ (write_addrs 0 s ++ codes "]"))

  abbrev pub write_entries : ℕ → SessionTable → Text
  write_entries i [] = []
  write_entries i ((pid, s) ∷ st) = comma_after i ++ (write_entry pid s ++ write_entries (suc i) st)

  unfoldable pub session_table_json : SessionTable → Text
  session_table_json st = codes "{" ++ (write_entries 0 st ++ codes "}")

  abbrev pub spec_entry : PeerId × Session → Text
  spec_entry (pid, s) =
      quoted (peer_id_string pid)
      ++ (codes ":[" ++ (joined (map (λ a. quoted (text a)) s) ++ codes "]"))

  write_entry-spec : (pid : PeerId) (s : Session) → write_entry pid s ≡ spec_entry (pid, s)
  write_entry-spec pid [] = refl
  write_entry-spec pid (a ∷ s) =
      ap (λ t. quoted (peer_id_string pid) ++ (codes ":[" ++ (t ++ codes "]")))
        (write_quoted-joined text a s 0)

  write_entries-joined :
      (e : PeerId × Session) (st : SessionTable) (i : ℕ)
      → write_entries i (e ∷ st) ≡ comma_after i ++ joined (map spec_entry (e ∷ st))
  write_entries-joined (pid, s) [] i =
      ap (λ t. comma_after i ++ t) (append-nil (write_entry pid s) ∙ write_entry-spec pid s)
  write_entries-joined (pid, s) (e ∷ st) i =
      ap (λ t. comma_after i ++ (write_entry pid s ++ t))
        (write_entries-joined e st (suc i)
          ∙ ap (λ c. c ++ joined (map spec_entry (e ∷ st))) (comma_after-suc i))
      ∙ ap (λ t. comma_after i ++ (t ++ (codes "," ++ joined (map spec_entry (e ∷ st)))))
          (write_entry-spec pid s)

  -- The text is an object with one member for each peer, in the order of the table, of its identifier
  -- and the list of the texts of its addresses: there is a comma exactly between two of them.
  pub session_table_json-joined :
      (st : SessionTable)
      → session_table_json st ≡ codes "{" ++ (joined (map spec_entry st) ++ codes "}")
  unfolding session_table_json
  session_table_json-joined [] = refl
  session_table_json-joined (e ∷ st) =
      ap (λ t. codes "{" ++ (t ++ codes "}")) (write_entries-joined e st 0)
