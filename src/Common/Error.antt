-- ===== src/Common/Error.antt =====
-- The errors of src/common.rs, and the error type of jammdb that they are made from.
use dbfs.Prelude.Res.{Res, ok, err, panic}

-- `jammdb::Error`, as the conversion in src/common.rs names its cases.
pub data KvError : Type 0 where
  bucket_exists bucket_missing key_value_missing incompatible_value read_only_tx : KvError
  kv_io kv_sync invalid_db alloc : KvError

pub data DbfsError : Type 0 where
  permission_denied not_found access_error file_exists invalid_argument no_space : DbfsError
  range_error name_too_long no_sys not_empty io not_supported no_data other : DbfsError

-- `impl From<jammdb::Error> for DbfsError`
abbrev pub from_kv_error : KvError → DbfsError
from_kv_error bucket_exists = file_exists
from_kv_error bucket_missing = no_data
from_kv_error key_value_missing = no_data
from_kv_error incompatible_value = invalid_argument
from_kv_error read_only_tx = access_error
from_kv_error kv_io = io
from_kv_error kv_sync = io
from_kv_error invalid_db = other
from_kv_error alloc = other

abbrev pub DbfsResult : Type 0 → Type 0
DbfsResult A = Res DbfsError A

-- `r?` on a result of jammdb.
abbrev pub try : {A : Type 0} → Res KvError A → DbfsResult A
try (ok a) = ok a
try (err e) = err (from_kv_error e)
try panic = panic

-- `r.unwrap()` on a result.
abbrev pub unwrap_ok : {E D A : Type 0} → Res E A → Res D A
unwrap_ok (ok a) = ok a
unwrap_ok (err e) = panic
unwrap_ok panic = panic
