-- ===== src/State/Pair/Safety.antt =====
-- A pair of files is replaced as a whole, or an error says how to get the old pair back.
use singbox_deploy.Common.{Text, Option, none, some, ◌≡◌, ◌⊎◌, arith}
use singbox_deploy.State.Pair.{Files, Faults, PairError, restore_failed, write_file_pair}

-- No error: both files are new, and no snapshot is left.
abbrev pub Replaced : Text → Text → Files → Option PairError × Files → Type 0
Replaced a_data b_data files r =
    (r.0 ≡ none) × (r.1.a ≡ some a_data) × (r.1.b ≡ some b_data) × (r.1.kept ≡ files.kept)

-- An error other than a failed restoration: nothing has changed.
abbrev pub Unchanged : Files → Option PairError × Files → Type 0
Unchanged files r = (e : PairError) × (r.0 ≡ some e) × (r.1 ≡ files)

-- A failed restoration: the first file is new, the second old, the first one's old text is kept.
abbrev pub Mismatched : Text → Files → Option PairError × Files → Type 0
Mismatched a_data files r =
    (r.0 ≡ some restore_failed) × (r.1.a ≡ some a_data) × (r.1.b ≡ files.b) × (r.1.kept ≡ files.a)

-- Whatever fails, `write_file_pair` replaces both files, or returns an error with both files as
-- they were, or returns the restoration error with the first file's old contents kept aside.
pub write_file_pair_safe :
    (faults : Faults) (a_data b_data : Text) (files : Files)
    → Replaced a_data b_data files (write_file_pair faults a_data b_data files)
      ⊎ (Unchanged files (write_file_pair faults a_data b_data files)
          ⊎ Mismatched a_data files (write_file_pair faults a_data b_data files))
unfolding write_file_pair
write_file_pair_safe faults a_data b_data files = ground arith
