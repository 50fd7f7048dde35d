-- ===== src/Inode/Row.antt =====
-- What a well-formed bucket of an inode holds, as a record of values, and that the attributes read
-- back are those values.
use dbfs.Prelude.{ℕ, Bytes, ◌∙◌, ◌/◌, ◌^◌, ◌<◌, ◌≡◌, true, false, some, arith}
use dbfs.Prelude.Bits.{bit_and-le_right}
use dbfs.Prelude.Res.{ok}
use dbfs.Prelude.Words.{add64, sub64, checked_div}
use dbfs.Bytes.{be_bytes}
use dbfs.Common.Error.{DbfsError}
use dbfs.Common.Permission.{DbfsFileType, from_bits, file_type_of, is_device}
use dbfs.Common.Time.{DbfsTimeSpec, time_bytes, epoch}
use dbfs.Common.Time.RoundTrip.{IsTime}
use dbfs.Common.Attr.{DbfsAttr}
use dbfs.Common.Keys.{
  ino_key, k_size, k_mode, k_hard_links, k_uid, k_gid, k_block_size, k_atime, k_mtime, k_ctime,
}
use dbfs.Kv.{Kv}
use dbfs.Store.Laws.{get_bucket_at, value_int_at, value_time_at}
use dbfs.Inode.Body.Attr.{attr_body}

pub record Row : Type 0 where
  pub size : ℕ
  pub mode : ℕ
  pub hard_links : ℕ
  pub uid : ℕ
  pub gid : ℕ
  pub block_size : ℕ
  pub atime : DbfsTimeSpec
  pub mtime : DbfsTimeSpec
  pub ctime : DbfsTimeSpec

-- The values fit the words that they are stored in.
pub record IsRow (r : Row) : Type 0 where
  pub size_fits : r.size < 2 ^ 64
  pub mode_fits : r.mode < 2 ^ 16
  pub hard_links_fits : r.hard_links < 2 ^ 32
  pub uid_fits : r.uid < 2 ^ 32
  pub gid_fits : r.gid < 2 ^ 32
  pub block_size_fits : r.block_size < 2 ^ 32
  pub atime_fits : IsTime r.atime
  pub mtime_fits : IsTime r.mtime
  pub ctime_fits : IsTime r.ctime

-- The bucket of `ino` is there and holds the row.
pub record Holds (K : Kv) (ino : ℕ) (r : Row) (d : K.Db) : Type 0 where
  pub there : K.has (ino_key ino) d ≡ true
  pub size_at : K.get_kv (ino_key ino) k_size d ≡ some (be_bytes 8 r.size)
  pub mode_at : K.get_kv (ino_key ino) k_mode d ≡ some (be_bytes 2 r.mode)
  pub hard_links_at : K.get_kv (ino_key ino) k_hard_links d ≡ some (be_bytes 4 r.hard_links)
  pub uid_at : K.get_kv (ino_key ino) k_uid d ≡ some (be_bytes 4 r.uid)
  pub gid_at : K.get_kv (ino_key ino) k_gid d ≡ some (be_bytes 4 r.gid)
  pub block_size_at : K.get_kv (ino_key ino) k_block_size d ≡ some (be_bytes 4 r.block_size)
  pub atime_at : K.get_kv (ino_key ino) k_atime d ≡ some (time_bytes r.atime)
  pub mtime_at : K.get_kv (ino_key ino) k_mtime d ≡ some (time_bytes r.mtime)
  pub ctime_at : K.get_kv (ino_key ino) k_ctime d ≡ some (time_bytes r.ctime)

-- The attributes of an inode with no device number.
abbrev pub attr_of : ℕ → Row → DbfsFileType → DbfsAttr
attr_of ino r kind = record {
  ino = ino;
  size = r.size;
  blocks = sub64 (add64 r.size r.block_size) 1 / r.block_size;
  atime = r.atime;
  mtime = r.mtime;
  ctime = r.ctime;
  crtime = epoch;
  kind = kind;
  perm = r.mode;
  nlink = r.hard_links;
  uid = r.uid;
  gid = r.gid;
  rdev = 0;
  blksize = r.block_size;
  padding = 0;
  flags = 0;
}

-- Every bit of a mode word is a flag.
pub from_bits_lem : (bits : ℕ) → from_bits bits ≡ some bits
unfolding from_bits
from_bits_lem bits = ground (arith, bit_and-le_right bits 0)

checked_div-pos : (a b : ℕ) → 0 < b → checked_div {E = DbfsError} a b ≡ ok (a / b)
checked_div-pos a b h = ground arith

module _ (K : Kv) (ino : ℕ) (r : Row) (d : K.Db) (kind : DbfsFileType) where
  pub attr_body-Holds :
      Holds K ino r d
      → IsRow r
      → file_type_of {E = DbfsError} r.mode ≡ ok kind
      → is_device kind ≡ false
      → 0 < r.block_size
      → attr_body K ino d ≡ ok (attr_of ino r kind, d)
  unfolding attr_body
  attr_body-Holds h f of_kind no_device pos =
      let b = ino_key ino in
      rw (
        get_bucket_at K b d h.there,
        value_int_at K 8 r.size b k_size d h.size_at f.size_fits,
        value_int_at K 2 r.mode b k_mode d h.mode_at f.mode_fits,
        from_bits_lem r.mode,
        of_kind,
        value_int_at K 4 r.hard_links b k_hard_links d h.hard_links_at f.hard_links_fits,
        value_int_at K 4 r.uid b k_uid d h.uid_at f.uid_fits,
        value_int_at K 4 r.gid b k_gid d h.gid_at f.gid_fits,
        value_int_at K 4 r.block_size b k_block_size d h.block_size_at f.block_size_fits,
        checked_div-pos (sub64 (add64 r.size r.block_size) 1) r.block_size pos,
        value_time_at K r.atime b k_atime d h.atime_at f.atime_fits,
        value_time_at K r.mtime b k_mtime d h.mtime_at f.mtime_fits,
        value_time_at K r.ctime b k_ctime d h.ctime_at f.ctime_fits,
        no_device,
      )

-- A row is kept by any change that its bucket does not show.
pub Holds-same :
    (K : Kv) (ino : ℕ) (r : Row) (d d' : K.Db)
    → ((k : Bytes) → K.get_kv (ino_key ino) k d' ≡ K.get_kv (ino_key ino) k d)
    → K.has (ino_key ino) d' ≡ K.has (ino_key ino) d
    → Holds K ino r d
    → Holds K ino r d'
Holds-same K ino r d d' same_at same_has h = record {
  there = same_has ∙ h.there;
  size_at = same_at k_size ∙ h.size_at;
  mode_at = same_at k_mode ∙ h.mode_at;
  hard_links_at = same_at k_hard_links ∙ h.hard_links_at;
  uid_at = same_at k_uid ∙ h.uid_at;
  gid_at = same_at k_gid ∙ h.gid_at;
  block_size_at = same_at k_block_size ∙ h.block_size_at;
  atime_at = same_at k_atime ∙ h.atime_at;
  mtime_at = same_at k_mtime ∙ h.mtime_at;
  ctime_at = same_at k_ctime ∙ h.ctime_at;
}
