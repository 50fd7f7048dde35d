-- ===== src/Attr/Chmod.antt =====
-- `dbfs_common_chmod`.
use dbfs.Prelude.{
  ℕ, ◌+◌, ◌*◌, ◌/◌, ◌%◌, ◌^◌, ◌<◌, ◌≡◌, refl, true, false, Bytes, ◌||◌, bit_and, bit_or, same,
  same_refl, arith, ◌==◌, ==_iff, Bool-cases, inl, inr, if◌then◌else◌,
}
use dbfs.Prelude.Bits.{every_below, every_below-at, bit_and-ones}
use dbfs.Prelude.Res.{ok}
use dbfs.Bytes.{be_bytes}
use dbfs.Common.Error.{DbfsError, DbfsResult}
use dbfs.Common.Permission.{DbfsFileType, file_type_of, is_device}
use dbfs.Common.Time.{DbfsTimeSpec, time_bytes}
use dbfs.Common.Attr.{DbfsAttr}
use dbfs.Common.Keys.{ino_key, k_mode, k_ctime}
use dbfs.Kv.{Kv}
use dbfs.Store.Tx.{State}
use dbfs.Store.Laws.{get_bucket_at, put_step}
use dbfs.Store.Atomic.{Serves, write_tx_unwrap-ok}
use dbfs.Inode.Row.{Row, IsRow, Holds, attr_of}
use dbfs.Inode.Create.Lookup.{attr-Holds}
use dbfs.Attr.{chmod_mode, dbfs_common_chmod}
use dbfs.Attr.Body.{chmod_body}

type_table : every_below 65536 (λ v. bit_and v 0o170000 == v / 4096 * 4096) ≡ true
unfolding every_below
type_table = refl

join_table :
    every_below 8192 (λ v. bit_or (v / 512 * 4096) (v % 512) == v / 512 * 4096 + v % 512) ≡ true
unfolding every_below
join_table = refl

join : (a b : ℕ) → a < 16 → b < 512 → bit_or (a * 4096) b ≡ a * 4096 + b
join a b ha hb =
    let at : bit_or ((a * 512 + b) / 512 * 4096) ((a * 512 + b) % 512)
        ≡ (a * 512 + b) / 512 * 4096 + (a * 512 + b) % 512 =
      (==_iff _ _).0 (
        every_below-at 8192 (λ v. bit_or (v / 512 * 4096) (v % 512) == v / 512 * 4096 + v % 512)
          (a * 512 + b) join_table (omega arith)) in
    let front : (a * 512 + b) / 512 ≡ a = omega arith in
    let back : (a * 512 + b) % 512 ≡ b = omega arith in cc

-- A change of a mode of sixteen bits keeps the four bits of the file's type and takes the nine
-- permission bits of the given mode; the set-id bits and the sticky bit are lost.
chmod_mode_lem :
    (perm mode : ℕ) → perm < 2 ^ 16 → chmod_mode perm mode ≡ perm / 4096 * 4096 + mode % 512
unfolding chmod_mode
chmod_mode_lem perm mode h =
    rw
      (
        (==_iff _ _).0
            (every_below-at 65536 (λ v. bit_and v 0o170000 == v / 4096 * 4096) perm type_table h),
        bit_and-ones 9 mode,
      )
      (join (perm / 4096) (mode % 512) (omega arith) (omega arith))

module _ (K : Kv) (s : State K.Db) (r_uid r_gid ino mode : ℕ) (t : DbfsTimeSpec) (r : Row)
    (kind : DbfsFileType) where
  -- The four bits of the file's type stay, the nine permission bits are those of the given mode.
  abbrev new_mode : ℕ
  new_mode = r.mode / 4096 * 4096 + mode % 512

  -- The row after the change: nothing is written where the mode stays the same.
  abbrev pub chmod_row : Row
  chmod_row = if new_mode == r.mode then r else record r { mode = new_mode; ctime = t }

  abbrev restamped : K.Db
  restamped =
      K.with_kv (ino_key ino) k_ctime (time_bytes t)
        (K.with_kv (ino_key ino) k_mode (be_bytes 2 new_mode) s.db)

  abbrev pub Chmodded : DbfsResult DbfsAttr × State K.Db → Type 0
  Chmodded out =
      (out.0 ≡ ok (attr_of ino chmod_row kind))
      × Holds K ino chmod_row out.1.db
      × ((b k : Bytes) → same (ino_key ino) b ≡ false → K.get_kv b k out.1.db ≡ K.get_kv b k s.db)

  module _ (serves : Serves K) (h : Holds K ino r s.db) (f : IsRow r)
      (of_kind : file_type_of {E = DbfsError} r.mode ≡ ok kind) (no_device : is_device kind ≡ false)
      (pos : 0 < r.block_size) (owner : ((r_uid == 0) || (r_uid == r.uid)) ≡ true)
      (group : ((r_uid == 0) || (r_gid == r.gid)) ≡ true) where
    body_runs : chmod_body K ino new_mode t s.db ≡ ok (tt, restamped)
    unfolding chmod_body
    body_runs = simp (get_bucket_at K, put_step K, K.has-with_kv, h.there)

    chmod_same :
        (new_mode == r.mode) ≡ true → Chmodded (dbfs_common_chmod K r_uid r_gid ino mode t s)
    unfolding dbfs_common_chmod
    chmod_same e =
        rw
          (
            attr-Holds K serves s ino r kind h f of_kind no_device pos,
            owner,
            group,
            chmod_mode_lem r.mode mode f.mode_fits,
            e,
          )
          (refl, h, (λ b k ne. refl))

    Holds-restamped : Holds K ino (record r { mode = new_mode; ctime = t }) restamped
    Holds-restamped = record {
      there = simp (K.has-with_kv, h.there);
      size_at = simp (K.get_kv-with_kv, same_refl, h.size_at);
      mode_at = simp (K.get_kv-with_kv, same_refl);
      hard_links_at = simp (K.get_kv-with_kv, same_refl, h.hard_links_at);
      uid_at = simp (K.get_kv-with_kv, same_refl, h.uid_at);
      gid_at = simp (K.get_kv-with_kv, same_refl, h.gid_at);
      block_size_at = simp (K.get_kv-with_kv, same_refl, h.block_size_at);
      atime_at = simp (K.get_kv-with_kv, same_refl, h.atime_at);
      mtime_at = simp (K.get_kv-with_kv, same_refl, h.mtime_at);
      ctime_at = simp (K.get_kv-with_kv, same_refl);
    }

    chmod_changes :
        (new_mode == r.mode) ≡ false → Chmodded (dbfs_common_chmod K r_uid r_gid ino mode t s)
    unfolding dbfs_common_chmod
    chmod_changes e =
        rw
          (
            attr-Holds K serves s ino r kind h f of_kind no_device pos,
            owner,
            group,
            chmod_mode_lem r.mode mode f.mode_fits,
            e,
            write_tx_unwrap-ok K (chmod_body K ino new_mode t) s serves body_runs,
          )
          (refl, Holds-restamped, (λ b k ne. simp (K.get_kv-with_kv, ne)))

    -- In a database that serves, when root, or the owner in the inode's group, changes the mode of
    -- a well-formed inode other than a device, whose block size is not 0, the reply and the bucket
    -- have a mode with the type bits of the old one and the nine permission bits of the given one, with
    -- no set-id and no sticky bit, and the given time, or are as before where the mode is the same, and
    -- every other inode is as before.
    pub chmod_owner : Chmodded (dbfs_common_chmod K r_uid r_gid ino mode t s)
    chmod_owner = elim (Bool-cases (new_mode == r.mode)) [
      | inl e ↦ chmod_same e
      | inr e ↦ chmod_changes e
    ]
