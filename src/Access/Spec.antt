-- ===== src/Access/Spec.antt =====
-- The access rule of POSIX, by the octal digits of a mode. It stands beside the code and shares
-- nothing with it.
use dbfs.Prelude.{ℕ, ◌/◌, ◌%◌, Bool, ◌&&◌, ◌||◌, leb, ◌==◌, if◌then◌else◌}

-- Each of the rights `r`, `w`, `x` that `mask` asks for is in `digit`.
abbrev pub covers : ℕ → ℕ → Bool
covers digit mask =
    leb (mask % 2) (digit % 2) && leb (mask / 2 % 2) (digit / 2 % 2) && leb (mask / 4) (digit / 4)

abbrev pub user_digit : ℕ → ℕ
user_digit mode = mode / 64 % 8

abbrev pub group_digit : ℕ → ℕ
group_digit mode = mode / 8 % 8

abbrev pub other_digit : ℕ → ℕ
other_digit mode = mode % 8

-- Some class has the execute right.
abbrev pub executable : ℕ → Bool
executable mode =
    (user_digit mode % 2 == 1) || (group_digit mode % 2 == 1) || (other_digit mode % 2 == 1)

-- Root reads and writes anything, and executes what somebody may execute; any other caller has the
-- rights of the first class that it belongs to.
unfoldable pub posix_access : ℕ → ℕ → ℕ → ℕ → ℕ → ℕ → Bool
posix_access owner group mode uid gid mask =
    if uid == 0
    then (mask % 2 == 0) || executable mode
    else if owner == uid
    then covers (user_digit mode) mask
    else if group == gid
    then covers (group_digit mode) mask
    else covers (other_digit mode) mask
