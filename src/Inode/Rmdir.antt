-- ===== src/Inode/Rmdir.antt =====
-- `dbfs_common_rmdir`.
use dbfs.Prelude.{
  ℕ, ◌^◌, ◌<◌, ◌≡◌, ◌≢◌, refl, ◌∙◌, true, false, none, some, Bytes, bit_and, same, same_refl, leb,
  if◌then◌else◌,
}
use dbfs.Prelude.Res.{ok, err}
use dbfs.Prelude.Words.{sub64}
use dbfs.Bytes.{be_bytes, decimal}
use dbfs.Common.Error.{DbfsResult, not_empty}
use dbfs.Common.Time.{DbfsTimeSpec, time_bytes}
use dbfs.Common.Keys.{ino_key, generate_data_key, k_size, k_mode, k_uid, k_gid, k_mtime, k_ctime}
use dbfs.Access.{checkout_access}
use dbfs.Kv.{Kv}
use dbfs.Store.Tx.{State}
use dbfs.Store.Laws.{
  get_bucket_at, value_at, value_int_at, put_step, delete_step, delete_bucket_step,
}
use dbfs.Store.Atomic.{Serves, write_tx-ok, write_tx-err}
use dbfs.Inode.Body.Entry.{sticky_bars, rmdir_body}
use dbfs.Inode.Row.{Row, IsRow, Holds, Holds-same}
use dbfs.Inode.{dbfs_common_rmdir}
use dbfs.Inode.Create.Lookup.{entry_number-decimal}
use dbfs.Inode.Unlink.{ino_key-ne}

module _ (K : Kv) (s : State K.Db) (uid gid dir : ℕ) (name : Bytes) (t : DbfsTimeSpec) (r : Row)
    (n : ℕ) (q : Row) where
  -- The contents without the entry, and without the directory that it stood for.
  abbrev trimmed : K.Db
  trimmed =
      let p = ino_key dir in
      K.with_kv p k_size (be_bytes 8 (sub64 r.size 1)) (
        K.without_kv p (generate_data_key name)
          (K.with_kv p k_ctime (time_bytes t) (K.with_kv p k_mtime (time_bytes t) s.db)))

  abbrev removed : K.Db
  removed = K.without_bucket (ino_key n) trimmed

  -- What a removal replies and leaves.
  abbrev pub Removed : DbfsResult (Unit {0}) × State K.Db → Type 0
  Removed out =
      (out.0 ≡ ok tt)
      × Holds K dir (record r { size = sub64 r.size 1; mtime = t; ctime = t }) out.1.db
      × ((other : Bytes)
          → K.get_kv (ino_key dir) (generate_data_key other) out.1.db ≡ (
              if same name other
              then none
              else K.get_kv (ino_key dir) (generate_data_key other) s.db))
      × (K.has (ino_key n) out.1.db ≡ false)
      × ((b k : Bytes)
          → same (ino_key dir) b ≡ false
          → same (ino_key n) b ≡ false
          → K.get_kv b k out.1.db ≡ K.get_kv b k s.db)

  Holds-trimmed :
      Holds K dir r s.db
      → Holds K dir (record r { size = sub64 r.size 1; mtime = t; ctime = t }) trimmed
  Holds-trimmed h = record {
    there = simp (K.has-with_kv, K.has-without_kv, h.there);
    size_at = simp (K.get_kv-with_kv, same_refl);
    mode_at = simp (K.get_kv-with_kv, K.get_kv-without_kv, same_refl, h.mode_at);
    hard_links_at = simp (K.get_kv-with_kv, K.get_kv-without_kv, same_refl, h.hard_links_at);
    uid_at = simp (K.get_kv-with_kv, K.get_kv-without_kv, same_refl, h.uid_at);
    gid_at = simp (K.get_kv-with_kv, K.get_kv-without_kv, same_refl, h.gid_at);
    block_size_at = simp (K.get_kv-with_kv, K.get_kv-without_kv, same_refl, h.block_size_at);
    atime_at = simp (K.get_kv-with_kv, K.get_kv-without_kv, same_refl, h.atime_at);
    mtime_at = simp (K.get_kv-with_kv, K.get_kv-without_kv, same_refl);
    ctime_at = simp (K.get_kv-with_kv, K.get_kv-without_kv, same_refl);
  }

  -- The other buckets, and the entries.
  trimmed-other :
      (b k : Bytes) → same (ino_key dir) b ≡ false → K.get_kv b k trimmed ≡ K.get_kv b k s.db
  trimmed-other b k ne = simp (K.get_kv-with_kv, K.get_kv-without_kv, ne)

  gone : (b k : Bytes) → same (ino_key n) b ≡ false → K.get_kv b k removed ≡ K.get_kv b k trimmed
  gone b k ne = simp (K.get_kv-without_bucket, ne)

  trimmed-entry :
      (other : Bytes)
      → K.get_kv (ino_key dir) (generate_data_key other) trimmed
        ≡ (if same name other then none else K.get_kv (ino_key dir) (generate_data_key other) s.db)
  trimmed-entry other = simp (K.get_kv-with_kv, K.get_kv-without_kv, same_refl)

  module _ (serves : Serves K) (h : Holds K dir r s.db) (f : IsRow r) (hq : Holds K n q s.db)
      (fq : IsRow q)
      (entry : K.get_kv (ino_key dir) (generate_data_key name) s.db ≡ some (decimal n))
      (fits : n < 2 ^ 64) where
    module _ (may : checkout_access r.uid r.gid (bit_and r.mode 0o777) uid gid 2 ≡ true)
        (free : sticky_bars r.mode uid r.uid q.uid ≡ false) (few : leb q.size 2 ≡ true) where
      body_removes : rmdir_body K uid gid dir name t s.db ≡ ok (tt, removed)
      unfolding rmdir_body
      body_removes =
          let p = ino_key dir in
          rw
            (
              get_bucket_at K p s.db h.there,
              value_at K p (generate_data_key name) s.db entry,
              entry_number-decimal n fits,
              get_bucket_at K (ino_key n) s.db hq.there,
              value_int_at K 8 q.size (ino_key n) k_size s.db hq.size_at fq.size_fits,
              few,
              value_int_at K 4 r.uid p k_uid s.db h.uid_at f.uid_fits,
              value_int_at K 4 r.gid p k_gid s.db h.gid_at f.gid_fits,
              value_int_at K 2 r.mode p k_mode s.db h.mode_at f.mode_fits,
              value_int_at K 8 r.size p k_size s.db h.size_at f.size_fits,
              may,
              value_int_at K 4 q.uid (ino_key n) k_uid s.db hq.uid_at fq.uid_fits,
              free,
            )
            (simp (
              put_step K,
              delete_step K,
              delete_bucket_step K,
              K.get_kv-with_kv,
              same_refl,
              entry,
              K.has-with_kv,
              K.has-without_kv,
              h.there,
              hq.there,
            ))

      -- In a database that serves, with a well-formed parent and a well-formed directory other
      -- than it that the name stands for, whose size is at most 2, where the caller may write to
      -- the parent and the sticky bit does not bar the caller, the removal succeeds: the name and
      -- the directory's bucket are gone, the parent counts one entry less, and every other entry
      -- of the parent and every other inode is as before.
      pub rmdir_entry : dir < 2 ^ 64 → n ≢ dir → Removed (dbfs_common_rmdir K uid gid dir name t s)
      unfolding dbfs_common_rmdir
      rmdir_entry dir_fits apart =
          let ne : same (ino_key n) (ino_key dir) ≡ false = ino_key-ne n dir fits dir_fits apart in
          rw (write_tx-ok K (rmdir_body K uid gid dir name t) s serves body_removes) (
            refl,
            Holds-same K dir (record r { size = sub64 r.size 1; mtime = t; ctime = t }) trimmed
                removed (λ k. gone (ino_key dir) k ne) (simp (K.has-without_bucket, ne))
                (Holds-trimmed h),
            (λ other. gone (ino_key dir) (generate_data_key other) ne ∙ trimmed-entry other),
            simp (K.has-without_bucket, same_refl),
            (λ b k other_dir other_n. gone b k other_n ∙ trimmed-other b k other_dir),
          )

    -- In a database that serves, a well-formed directory of a size above 2 is not removed from a
    -- well-formed parent, whoever asks, and nothing changes.
    pub rmdir_not_empty :
        leb q.size 2 ≡ false → dbfs_common_rmdir K uid gid dir name t s ≡ (err not_empty, s)
    unfolding dbfs_common_rmdir
    rmdir_not_empty many = write_tx-err K (rmdir_body K uid gid dir name t) s serves body_refuses
      where
        body_refuses : rmdir_body K uid gid dir name t s.db ≡ err not_empty
        body_refuses =
            unfold rmdir_body in
            rw (
              get_bucket_at K (ino_key dir) s.db h.there,
              value_at K (ino_key dir) (generate_data_key name) s.db entry,
              entry_number-decimal n fits,
              get_bucket_at K (ino_key n) s.db hq.there,
              value_int_at K 8 q.size (ino_key n) k_size s.db hq.size_at fq.size_fits,
              many,
            )
