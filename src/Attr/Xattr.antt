-- ===== src/Attr/Xattr.antt =====
-- The operations on one extended attribute.
use dbfs.Prelude.{
  ℕ, ◌<◌, ◌^◌, ◌≤◌, ◌≡◌, refl, ap, true, false, some, Bytes, length, drop, ◌++◌, bit_and, same,
  same_refl, same→eq, arith, Bool-cases, inl, inr,
}
use dbfs.Prelude.Res.{ok, err}
use dbfs.Common.Error.{DbfsError, not_supported, DbfsResult}
use dbfs.Common.Time.{DbfsTimeSpec, time_bytes}
use dbfs.Common.Keys.{
  ino_key, k_size, k_hard_links, k_block_size, k_atime, k_mtime, k_mode, k_uid, k_gid, k_ctime,
}
use dbfs.Access.{access_r_ok, access_w_ok, xattr_access_check}
use dbfs.Kv.{Kv}
use dbfs.Store.Tx.{State, get_kv}
use dbfs.Store.Laws.{get_bucket_at, value_int_at, put_step, delete_step, with_db}
use dbfs.Store.Atomic.{
  Serves, write_tx_unwrap-ok, write_tx_unwrap-err, dropped_tx_unwrap-ok, dropped_tx_unwrap-err,
}
use dbfs.Inode.Row.{Row, IsRow, Holds}
use dbfs.Attr.{dbfs_common_setxattr, dbfs_common_getxattr, dbfs_common_removexattr}
use dbfs.Attr.Body.{checked_bucket, setxattr_body, getxattr_body, removexattr_body, copy_value}

-- A key of some namespace is none of the inode's own keys.
foreign_key :
    (key own : Bytes) (mask r_uid r_gid uid gid mode : ℕ)
    → xattr_access_check key mask r_uid r_gid uid gid mode ≡ ok tt
    → xattr_access_check own mask r_uid r_gid uid gid mode ≡ err not_supported
    → same key own ≡ false
foreign_key key own mask r_uid r_gid uid gid mode good bad = elim (Bool-cases (same key own)) [
  | inl e ↦ cc (ap (λ v. xattr_access_check v mask r_uid r_gid uid gid mode) (same→eq key own e))
  | inr e ↦ e
]

same-sym : (a b : Bytes) → same a b ≡ false → same b a ≡ false
same-sym a b h = elim (Bool-cases (same b a)) [
  | inl e ↦ cc (same→eq b a e, same_refl b)
  | inr e ↦ e
]

module _ (key : Bytes) (mask r_uid r_gid uid gid mode : ℕ) where
  -- A key that may be used is a key of some namespace, and so none of the inode's own.
  abbrev Apart : Bytes → Type 0
  Apart own = same key own ≡ false

  all-Apart :
      xattr_access_check key mask r_uid r_gid uid gid mode ≡ ok tt
      → Apart k_size
        × Apart k_mode
        × Apart k_hard_links
        × Apart k_uid
        × Apart k_gid
        × Apart k_block_size
        × Apart k_atime
        × Apart k_mtime
        × Apart k_ctime
  unfolding xattr_access_check
  all-Apart good =
      let at : (own : Bytes)
          → xattr_access_check own mask r_uid r_gid uid gid mode ≡ err not_supported
          → Apart own =
        λ own bad. foreign_key key own mask r_uid r_gid uid gid mode good bad in
      (
        at k_size refl,
        at k_mode refl,
        at k_hard_links refl,
        at k_uid refl,
        at k_gid refl,
        at k_block_size refl,
        at k_atime refl,
        at k_mtime refl,
        at k_ctime refl,
      )

module _ (K : Kv) (r_uid r_gid ino : ℕ) (key : Bytes) (r : Row) (d : K.Db) where
  checked_bucket-at :
      (mask : ℕ) (answer : DbfsResult (Unit {0}))
      → Holds K ino r d
      → (r.uid < 2 ^ 32) × (r.gid < 2 ^ 32) × (r.mode < 2 ^ 16)
      → xattr_access_check key mask r_uid r_gid r.uid r.gid (bit_and r.mode 0o777) ≡ answer
      → checked_bucket K mask key r_uid r_gid ino d ≡ with_db K d answer
  unfolding checked_bucket
  checked_bucket-at mask answer h (uid_fits, gid_fits, mode_fits) e =
      let b = ino_key ino in
      rw
        (
          get_bucket_at K b d h.there,
          value_int_at K 4 r.uid b k_uid d h.uid_at uid_fits,
          value_int_at K 4 r.gid b k_gid d h.gid_at gid_fits,
          value_int_at K 2 r.mode b k_mode d h.mode_at mode_fits,
          e,
        )
        (ground arith)

  -- The contents with the attribute set.
  abbrev marked : Bytes → DbfsTimeSpec → K.Db
  marked value t =
      K.with_kv (ino_key ino) k_ctime (time_bytes t) (K.with_kv (ino_key ino) key value d)

  Holds-marked :
      (mask : ℕ) (value : Bytes) (t : DbfsTimeSpec)
      → Holds K ino r d
      → xattr_access_check key mask r_uid r_gid r.uid r.gid (bit_and r.mode 0o777) ≡ ok tt
      → Holds K ino (record r { ctime = t }) (marked value t)
  Holds-marked mask value t h good =
      let (a, b, c, e, f, g, i, j, k) =
        all-Apart key mask r_uid r_gid r.uid r.gid (bit_and r.mode 0o777) good in
      record {
        there = simp (K.has-with_kv, h.there);
        size_at = simp (K.get_kv-with_kv, same_refl, a, h.size_at);
        mode_at = simp (K.get_kv-with_kv, same_refl, b, h.mode_at);
        hard_links_at = simp (K.get_kv-with_kv, same_refl, c, h.hard_links_at);
        uid_at = simp (K.get_kv-with_kv, same_refl, e, h.uid_at);
        gid_at = simp (K.get_kv-with_kv, same_refl, f, h.gid_at);
        block_size_at = simp (K.get_kv-with_kv, same_refl, g, h.block_size_at);
        atime_at = simp (K.get_kv-with_kv, same_refl, i, h.atime_at);
        mtime_at = simp (K.get_kv-with_kv, same_refl, j, h.mtime_at);
        ctime_at = simp (K.get_kv-with_kv, same_refl);
      }

-- A value that fits the buffer is copied to its front.
copy_value-fits :
    (value buf : Bytes)
    → 0 < length buf
    → length value ≤ length buf
    → copy_value value buf ≡ ok (length value, value ++ drop (length value) buf)
unfolding copy_value
copy_value-fits value buf pos h = ground arith

module _ (K : Kv) (s : State K.Db) (r_uid r_gid ino : ℕ) (key value buf : Bytes) (t : DbfsTimeSpec)
    (r : Row) where
  -- A setting of an attribute with a reading behind it.
  abbrev pub SetAndRead : Type 0
  SetAndRead =
      let set = dbfs_common_setxattr K r_uid r_gid ino key value t s in
      (set.0 ≡ ok tt)
      × Holds K ino (record r { ctime = t }) set.1.db
      × ((dbfs_common_getxattr K r_uid r_gid ino key buf set.1).0
          ≡ ok (length value, value ++ drop (length value) buf))

module _ (K : Kv) (serves : Serves K) (s : State K.Db) (r_uid r_gid ino : ℕ) (key value buf : Bytes)
    (t : DbfsTimeSpec) (r : Row) (h : Holds K ino r s.db) (f : IsRow r) where
  -- In a database that serves, with a well-formed inode and a key that the namespace lets the
  -- caller read, what was set is read back by the same caller, into a buffer that is not empty and
  -- large enough; the inode's own row changes only in its time.
  pub setxattr-getxattr :
      xattr_access_check key access_r_ok r_uid r_gid r.uid r.gid (bit_and r.mode 0o777) ≡ ok tt
      → 0 < length buf
      → length value ≤ length buf
      → SetAndRead K s r_uid r_gid ino key value buf t r
  unfolding dbfs_common_setxattr dbfs_common_getxattr
  setxattr-getxattr good pos room =
      let d = marked K r_uid r_gid ino key r s.db value t in
      let kept : Holds K ino (record r { ctime = t }) d =
        Holds-marked K r_uid r_gid ino key r s.db access_r_ok value t h good in
      rw (write_tx_unwrap-ok K (setxattr_body K r_uid r_gid ino key value t) s serves set_runs) (
        refl,
        kept,
        ap (λ out. out.0)
            (dropped_tx_unwrap-ok K (getxattr_body K r_uid r_gid ino key buf) (record s { db = d })
              serves false (get_runs kept)),
      )
    where
      small : (r.uid < 2 ^ 32) × (r.gid < 2 ^ 32) × (r.mode < 2 ^ 16)
      small = (f.uid_fits, f.gid_fits, f.mode_fits)

      set_runs :
          setxattr_body K r_uid r_gid ino key value t s.db
          ≡ ok (tt, marked K r_uid r_gid ino key r s.db value t)
      set_runs =
          unfold setxattr_body in
          rw (checked_bucket-at K r_uid r_gid ino key r s.db access_r_ok (ok tt) h small good)
            (simp (put_step K, K.has-with_kv, h.there))

      found : K.get_kv (ino_key ino) key (marked K r_uid r_gid ino key r s.db value t) ≡ some value
      found = simp (
        K.get_kv-with_kv,
        same_refl,
        same-sym key k_ctime
            (all-Apart key access_r_ok r_uid r_gid r.uid r.gid (bit_and r.mode 0o777) good).8,
      )

      get_runs :
          Holds K ino (record r { ctime = t }) (marked K r_uid r_gid ino key r s.db value t)
          → getxattr_body K r_uid r_gid ino key buf (marked K r_uid r_gid ino key r s.db value t)
            ≡ ok (
              (length value, value ++ drop (length value) buf),
              marked K r_uid r_gid ino key r s.db value t,
            )
      get_runs kept =
          unfold getxattr_body in
          unfold get_kv in
          rw (
            checked_bucket-at K r_uid r_gid ino key (record r { ctime = t })
                (marked K r_uid r_gid ino key r s.db value t) access_r_ok (ok tt) kept small good,
            found,
            copy_value-fits value buf pos room,
          )

  -- In a database that serves, with a well-formed inode, a caller that the key's namespace denies
  -- both reading and writing with the same error gets that error from setting, reading and
  -- removing the attribute, and nothing changes.
  pub xattr_refused :
      (e : DbfsError)
      → xattr_access_check key access_r_ok r_uid r_gid r.uid r.gid (bit_and r.mode 0o777) ≡ err e
      → xattr_access_check key access_w_ok r_uid r_gid r.uid r.gid (bit_and r.mode 0o777) ≡ err e
      → (dbfs_common_setxattr K r_uid r_gid ino key value t s ≡ (err e, s))
        × (dbfs_common_getxattr K r_uid r_gid ino key buf s ≡ (err e, s))
        × (dbfs_common_removexattr K r_uid r_gid ino key t s ≡ (err e, s))
  unfolding dbfs_common_setxattr dbfs_common_getxattr dbfs_common_removexattr
  xattr_refused e no_read no_write = (
    write_tx_unwrap-err K (setxattr_body K r_uid r_gid ino key value t) s serves (
        unfold setxattr_body in
        rw (checked_bucket-at K r_uid r_gid ino key r s.db access_r_ok (err e) h small no_read)),
    dropped_tx_unwrap-err K (getxattr_body K r_uid r_gid ino key buf) s serves false (
        unfold getxattr_body in
        rw (checked_bucket-at K r_uid r_gid ino key r s.db access_r_ok (err e) h small no_read)),
    dropped_tx_unwrap-err K (removexattr_body K r_uid r_gid ino key t) s serves true (
        unfold removexattr_body in
        rw (checked_bucket-at K r_uid r_gid ino key r s.db access_w_ok (err e) h small no_write)),
  )
    where
      small : (r.uid < 2 ^ 32) × (r.gid < 2 ^ 32) × (r.mode < 2 ^ 16)
      small = (f.uid_fits, f.gid_fits, f.mode_fits)

  -- In a database that serves, with a well-formed inode, removing an attribute that is there and
  -- that the caller may write reports success and changes nothing: the transaction is dropped.
  pub removexattr_lost :
      {v : Bytes}
      → xattr_access_check key access_w_ok r_uid r_gid r.uid r.gid (bit_and r.mode 0o777) ≡ ok tt
      → K.get_kv (ino_key ino) key s.db ≡ some v
      → dbfs_common_removexattr K r_uid r_gid ino key t s ≡ (ok tt, s)
  unfolding dbfs_common_removexattr
  removexattr_lost good there =
      dropped_tx_unwrap-ok K (removexattr_body K r_uid r_gid ino key t) s serves true runs
    where
      stamped : K.Db
      stamped = K.with_kv (ino_key ino) k_ctime (time_bytes t) (K.without_kv (ino_key ino) key s.db)

      runs : removexattr_body K r_uid r_gid ino key t s.db ≡ ok (tt, stamped)
      runs =
          unfold removexattr_body in
          rw
            (checked_bucket-at K r_uid r_gid ino key r s.db access_w_ok (ok tt) h
              (f.uid_fits, f.gid_fits, f.mode_fits) good)
            (simp (delete_step K, there, put_step K, K.has-without_kv, h.there))
