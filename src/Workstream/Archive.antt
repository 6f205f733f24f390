-- ===== src/Workstream/Archive.antt =====
-- .opencode/get-shit-done/bin/lib/workstream.cjs: the name of the archive in `cmdWorkstreamComplete`.
pub mod Free
use mikmongo.Base.{ℕ, zero, suc, List, ◌++◌, if◌then◌else◌, length, any}
use mikmongo.Text.{Text, codes, equal}
use mikmongo.State.Command.{show_nat}

-- The first candidate from `k` on that is not taken. As many candidates as there are names cannot
-- all be taken, so the number of the names is fuel enough.
unfoldable pub free_from : ℕ → List Text → (ℕ → Text) → ℕ → Text
unfolding equal
free_from zero taken candidate k = candidate k
free_from (suc fuel) taken candidate k =
    let later = free_from fuel taken candidate (suc k) in
    if any (equal (candidate k)) taken then later else candidate k

abbrev pub first_name : Text → Text → Text
first_name name today = codes "ws-" ++ (name ++ (codes "-" ++ today))

abbrev pub numbered : Text → ℕ → Text
numbered first k = first ++ (codes "-" ++ show_nat k)

-- The first name, or the same with a number from 1 on.
unfoldable pub archive_name : List Text → Text → Text → Text
unfolding free_from show_nat equal
archive_name taken name today =
    let first = first_name name today in
    if any (equal first) taken then free_from (length taken) taken (numbered first) 1 else first
