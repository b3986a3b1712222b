-- ===== src/Update/Unzipping.antt =====
-- `Unzip` (update.go): the names that it returns.
use p2p_update.Common.{
  ℕ, suc, ◌≡◌, Bool, true, not, ◌&&◌, ◌||◌, List, [], ◌∷◌, ◌++◌, arith, Text, take, if◌then◌else◌,
}
use mathlib.Core.List.{append-nil, append_assoc}
use p2p_update.Update.{System, ZipEntry, unzip_entries}

-- What an entry needs to be extracted: a directory needs only to be opened.
abbrev pub extracts : ZipEntry → Bool
extracts f = f.opens && (f.is_dir || (f.parent_made && (f.file_opened && f.copied)))

abbrev pub all_extract : List ZipEntry → Bool
all_extract [] = true
all_extract (f ∷ fs) = extracts f && all_extract fs

-- How many entries are named before the loop ends.
abbrev pub reached : List ZipEntry → ℕ
reached [] = 0
reached (f ∷ fs) = if not f.opens then 0 else if extracts f then suc (reached fs) else 1

module _ (sys : System) (dest : Text) where
  abbrev pub targets : List ZipEntry → List Text
  targets [] = []
  targets (f ∷ fs) = sys.join dest f.name ∷ targets fs

  -- The loop of `Unzip` returns no error exactly when every entry can be extracted. The names that
  -- it returns are those of the entries joined to the destination, in the archive's order, up to
  -- and with the first entry that is opened but not extracted, and before the first not opened.
  pub unzip_entries-reached :
      (fs : List ZipEntry) (names : List Text)
      → unzip_entries sys dest fs names ≡ (names ++ take (reached fs) (targets fs), all_extract fs)
  unfolding unzip_entries
  unzip_entries-reached [] names = rw append-nil
  unzip_entries-reached (f ∷ fs) names =
      let target = sys.join dest f.name in
      ground (
        arith,
        unzip_entries-reached fs (names ++ target ∷ []),
        append-nil names,
        append_assoc names (target ∷ []) (take (reached fs) (targets fs)),
      )
