-- ===== src/Inode/Unlink/Whole.antt =====
-- `dbfs_common_unlink` as a whole.
use dbfs.Prelude.{
  ℕ, ◌^◌, ◌<◌, ◌≡◌, ◌≢◌, refl, sym, ◌∙◌, true, false, none, some, Bytes, bit_and, same, same_refl,
  arith, ◌==◌, ==_iff, Bool-cases, inl, inr, if◌then◌else◌,
}
use dbfs.Prelude.Res.{ok}
use dbfs.Prelude.Words.{sub64, sub32}
use dbfs.Bytes.{decimal}
use dbfs.Common.Error.{DbfsResult}
use dbfs.Common.Time.{DbfsTimeSpec}
use dbfs.Common.Keys.{ino_key, generate_data_key, k_size}
use dbfs.Access.{checkout_access}
use dbfs.Kv.{Kv}
use dbfs.Store.Tx.{State}
use dbfs.Store.Atomic.{Serves, write_tx-ok}
use dbfs.Inode.Body.Entry.{sticky_bars, unlink_body, drop_link}
use dbfs.Inode.Row.{Row, IsRow, Holds, Holds-same}
use dbfs.Inode.{dbfs_common_unlink}
use dbfs.Inode.Unlink.{
  ino_key-ne, left, Holds-left, left-entry, left-other, unlink_body_lem, drop_link-last,
  drop_link-more, one_less, Holds-one_less, one_less-other,
}

module _ (K : Kv) (s : State K.Db) (uid gid dir : ℕ) (name : Bytes) (t : DbfsTimeSpec) (r : Row)
    (n : ℕ) (q : Row) where
  -- What an unlinking replies and leaves.
  abbrev pub Unlinked : DbfsResult (Unit {0}) × State K.Db → Type 0
  Unlinked out =
      (out.0 ≡ ok tt)
      × Holds K dir (record r { size = sub64 r.size 1; mtime = t; ctime = t }) out.1.db
      × ((other : Bytes)
          → K.get_kv (ino_key dir) (generate_data_key other) out.1.db ≡ (
              if same name other
              then none
              else K.get_kv (ino_key dir) (generate_data_key other) s.db))
      × (q.hard_links ≡ 1 → K.has (ino_key n) out.1.db ≡ false)
      × (q.hard_links ≢ 1
          → Holds K n (record q { hard_links = sub32 q.hard_links 1; ctime = t }) out.1.db)
      × ((b k : Bytes)
          → same (ino_key dir) b ≡ false
          → same (ino_key n) b ≡ false
          → K.get_kv b k out.1.db ≡ K.get_kv b k s.db)

  abbrev within : K.Db
  within = left K dir name (sub64 r.size 1) t s.db

  module _ (serves : Serves K) (h : Holds K dir r s.db) (f : IsRow r) (hq : Holds K n q s.db)
      (fq : IsRow q) (may : checkout_access r.uid r.gid (bit_and r.mode 0o777) uid gid 2 ≡ true)
      (free : sticky_bars r.mode uid r.uid q.uid ≡ false)
      (entry : K.get_kv (ino_key dir) (generate_data_key name) s.db ≡ some (decimal n))
      (fits : n < 2 ^ 64) (dir_fits : dir < 2 ^ 64) (apart : n ≢ dir) where
    ne : same (ino_key n) (ino_key dir) ≡ false
    ne = ino_key-ne n dir fits dir_fits apart

    en : same (ino_key dir) (ino_key n) ≡ false
    en = ino_key-ne dir n dir_fits fits (λ e. apart (sym e))

    target_kept : Holds K n q within
    target_kept =
        Holds-same K n q s.db within
          (λ k. (left-other K dir name (sub64 r.size 1) t s.db (ino_key n) k en).0)
          (left-other K dir name (sub64 r.size 1) t s.db (ino_key n) k_size en).1 hq

    parent_kept : Holds K dir (record r { size = sub64 r.size 1; mtime = t; ctime = t }) within
    parent_kept = Holds-left K dir name (sub64 r.size 1) t s.db r h

    -- The body, run up to the last link.
    body_runs :
        (d : K.Db)
        → drop_link K n t within ≡ ok (tt, d)
        → dbfs_common_unlink K uid gid dir name none t s ≡ (ok tt, record s { db = d })
    unfolding dbfs_common_unlink
    body_runs d e =
        write_tx-ok K (unlink_body K uid gid dir name none t) s serves
          (unlink_body_lem K uid gid dir name t s.db r n q h f hq fq may free entry fits ∙ e)

    last_link : q.hard_links ≡ 1 → Unlinked (dbfs_common_unlink K uid gid dir name none t s)
    last_link last =
        rw
          (body_runs (K.without_bucket (ino_key n) within)
            (drop_link-last K n t within q target_kept last))
          (
            refl,
            Holds-same K dir (record r { size = sub64 r.size 1; mtime = t; ctime = t }) within
                (K.without_bucket (ino_key n) within) (λ k. simp (K.get_kv-without_bucket, ne))
                (simp (K.has-without_bucket, ne)) parent_kept,
            (λ other.
                simp (K.get_kv-without_bucket, ne)
                  (left-entry K dir name (sub64 r.size 1) t s.db other)),
            (λ e. simp (K.has-without_bucket, same_refl)),
            (λ more. absurd (more last)),
            (λ b k other_dir other_n.
                simp (K.get_kv-without_bucket, other_n)
                  (left-other K dir name (sub64 r.size 1) t s.db b k other_dir).0),
          )

    more_links :
        (q.hard_links == 1) ≡ false → Unlinked (dbfs_common_unlink K uid gid dir name none t s)
    more_links more =
        let kept : (b k : Bytes)
            → same (ino_key n) b ≡ false
            → (K.get_kv b k (one_less K n t within q) ≡ K.get_kv b k within)
              × (K.has b (one_less K n t within q) ≡ K.has b within) =
          one_less-other K n t within q in
        rw (body_runs (one_less K n t within q) (drop_link-more K n t within q target_kept fq more))
          (
            refl,
            Holds-same K dir (record r { size = sub64 r.size 1; mtime = t; ctime = t }) within
                (one_less K n t within q) (λ k. (kept (ino_key dir) k ne).0)
                (kept (ino_key dir) name ne).1 parent_kept,
            (λ other.
                (kept (ino_key dir) (generate_data_key other) ne).0
                ∙ (left-entry K dir name (sub64 r.size 1) t s.db other)),
            (λ e. ground arith),
            (λ e. Holds-one_less K n t within q target_kept),
            (λ b k other_dir other_n.
                (kept b k other_n).0
                ∙ (left-other K dir name (sub64 r.size 1) t s.db b k other_dir).0),
          )

    -- In a database that serves, with a well-formed directory and a well-formed inode other than
    -- it that the name stands for, where the caller may write to the directory and the sticky bit
    -- does not bar the caller, unlinking the name succeeds: the name is gone and the directory
    -- counts one entry less; the inode loses one link, or its bucket with its last link; every
    -- other entry of the directory and every other inode is as before.
    pub unlink_entry : Unlinked (dbfs_common_unlink K uid gid dir name none t s)
    unlink_entry = elim (Bool-cases (q.hard_links == 1)) [
      | inl e ↦ last_link ((==_iff q.hard_links 1).0 e)
      | inr e ↦ more_links e
    ]
