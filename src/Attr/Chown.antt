-- ===== src/Attr/Chown.antt =====
-- `dbfs_common_chown`: whom it lets do what, and the mode after it.
use dbfs.Prelude.{
  ℕ, ◌-◌, ◌*◌, ◌/◌, ◌%◌, ◌^◌, ◌<◌, ◌≡◌, ◌≢◌, refl, Bool, true, false, Option, none, some, ◌||◌,
  ◌&&◌, arith, ◌==◌, ==_iff, if◌then◌else◌,
}
use dbfs.Prelude.Bits.{every_below, every_below-at}
use dbfs.Prelude.Res.{ok, err}
use dbfs.Common.Error.{DbfsError, permission_denied}
use dbfs.Common.Permission.{
  DbfsFileType, file_type_of, is_device, contains, remove, from_bits_truncate,
}
use dbfs.Common.Time.{DbfsTimeSpec}
use dbfs.Kv.{Kv}
use dbfs.Store.Tx.{State}
use dbfs.Store.Atomic.{Serves}
use dbfs.Access.{clear_suid_sgid}
use dbfs.Inode.Row.{Row, IsRow, Holds}
use dbfs.Inode.Create.Lookup.{attr-Holds}
use dbfs.Attr.{chown_allowed, chown_mode, dbfs_common_chown}

-- A mode without one bit, where a condition holds.
abbrev less : Bool → ℕ → ℕ → ℕ
less b bit mode = if b then mode - mode / bit % 2 * bit else mode

abbrev given : Option ℕ → Bool
given none = false
given (some n) = true

-- Some class may execute; the group may.
abbrev runs : ℕ → Bool
runs mode = (mode / 64 % 2 == 1) || (mode / 8 % 2 == 1) || (mode % 2 == 1)

abbrev group_runs : ℕ → Bool
group_runs mode = mode / 8 % 2 == 1

-- The mode after a change of owner, of group or of both, by the bits of the old one.
abbrev pub expected : Option ℕ → Option ℕ → ℕ → ℕ
expected uid gid mode =
    less (given gid || group_runs mode) 1024 (less (given uid || runs mode) 2048 mode)

abbrev agrees : Option ℕ → Option ℕ → ℕ → Bool
agrees uid gid v = chown_mode uid gid v == expected uid gid v

chown_table :
    every_below 65536 (λ v.
      agrees none none v
      && agrees (some 0) none v
      && agrees none (some 0) v
      && agrees (some 0) (some 0) v)
    ≡ true
unfolding every_below chown_mode contains remove from_bits_truncate clear_suid_sgid
chown_table = refl

all_four :
    (a b c d : Bool) → (a && b && c && d) ≡ true → (a ≡ true) × (b ≡ true) × (c ≡ true) × (d ≡ true)
all_four a b c d h = ground arith

agrees_all :
    (v : ℕ)
    → v < 2 ^ 16
    → (agrees none none v ≡ true)
      × (agrees (some 0) none v ≡ true)
      × (agrees none (some 0) v ≡ true)
      × (agrees (some 0) (some 0) v ≡ true)
agrees_all v h =
    let e : (agrees none none v
          && agrees (some 0) none v
          && agrees none (some 0) v
          && agrees (some 0) (some 0) v)
        ≡ true =
      every_below-at 65536
        (λ v.
          agrees none none v
          && agrees (some 0) none v
          && agrees none (some 0) v
          && agrees (some 0) (some 0) v)
        v chown_table h in
    all_four (agrees none none v) (agrees (some 0) none v) (agrees none (some 0) v)
      (agrees (some 0) (some 0) v) e

-- On every `u16`: a change of owner clears the set-user-id bit if an owner is given or some class may
-- execute, clears the set-group-id bit if a group is given or the group may execute, and keeps every
-- other bit.
pub chown_mode_lem :
    (uid gid : Option ℕ) (mode : ℕ)
    → mode < 2 ^ 16
    → chown_mode uid gid mode ≡ expected uid gid mode
unfolding chown_mode
chown_mode_lem none none mode h = (==_iff _ _).0 (agrees_all mode h).0
chown_mode_lem (some u) none mode h = (==_iff _ _).0 (agrees_all mode h).1
chown_mode_lem none (some g) mode h = (==_iff _ _).0 (agrees_all mode h).2
chown_mode_lem (some u) (some g) mode h = (==_iff _ _).0 (agrees_all mode h).3

module _ (r_uid r_gid owner : ℕ) where
  -- A caller other than root.
  give_away :
      (u : ℕ) (gid : Option ℕ)
      → r_uid ≢ 0
      → u ≢ owner
      → chown_allowed r_uid r_gid (some u) gid owner ≡ false
  unfolding chown_allowed
  give_away u none user other = ground arith
  give_away u (some g) user other = ground arith

  foreign_group :
      (uid : Option ℕ) (g : ℕ)
      → r_uid ≢ 0
      → r_gid ≢ g
      → chown_allowed r_uid r_gid uid (some g) owner ≡ false
  unfolding chown_allowed
  foreign_group none g user other = ground arith
  foreign_group (some u) g user other = ground arith

module _ (K : Kv) (s : State K.Db) (r_uid r_gid ino : ℕ) (t : DbfsTimeSpec) (r : Row) where
  abbrev pub ChownRefused : Type 0
  ChownRefused =
      ((u : ℕ) (gid : Option ℕ)
        → u ≢ r.uid
        → dbfs_common_chown K r_uid r_gid ino (some u) gid t s ≡ (err permission_denied, s))
      × ((uid : Option ℕ) (g : ℕ)
          → r_gid ≢ g
          → dbfs_common_chown K r_uid r_gid ino uid (some g) t s ≡ (err permission_denied, s))

module _ (K : Kv) (serves : Serves K) (s : State K.Db) (r_uid r_gid ino : ℕ) (t : DbfsTimeSpec)
    (r : Row) (kind : DbfsFileType) (h : Holds K ino r s.db) (f : IsRow r)
    (of_kind : file_type_of {E = DbfsError} r.mode ≡ ok kind) (no_device : is_device kind ≡ false)
    (pos : 0 < r.block_size) (user : r_uid ≢ 0) where
  -- In a database that serves, a caller other than root can give no well-formed inode other than a
  -- device, whose block size is not 0, to another owner than it has, nor to a group that is not
  -- the caller's: the call fails and nothing changes.
  pub chown_refused : ChownRefused K s r_uid r_gid ino t r
  unfolding dbfs_common_chown
  chown_refused = (
    (λ u gid ne. rw (
      attr-Holds K serves s ino r kind h f of_kind no_device pos,
      give_away r_uid r_gid r.uid u gid user ne,
    )),
    (λ uid g ne. rw (
      attr-Holds K serves s ino r kind h f of_kind no_device pos,
      foreign_group r_uid r_gid r.uid uid g user ne,
    )),
  )
