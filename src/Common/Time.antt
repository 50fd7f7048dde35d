-- ===== src/Common/Time.antt =====
-- `DbfsTimeSpec` of src/common.rs and its encoding in twelve bytes.
pub mod RoundTrip
use dbfs.Prelude.{ℕ, ◌++◌, Bytes, length, take, drop, leb, if◌then◌else◌}
use dbfs.Prelude.Res.{Res, ok, panic}
use dbfs.Bytes.{be_bytes, from_be}

pub record DbfsTimeSpec : Type 0 where
  pub sec : ℕ
  pub nsec : ℕ

-- `DbfsTimeSpec::default()`
abbrev pub epoch : DbfsTimeSpec
epoch = record { sec = 0; nsec = 0 }

-- `to_be_bytes`: eight bytes of seconds, four of nanoseconds.
unfoldable pub time_bytes : DbfsTimeSpec → Bytes
time_bytes t = be_bytes 8 t.sec ++ be_bytes 4 t.nsec

-- `DbfsTimeSpec::from(&[u8])`: the slices `value[0..8]` and `value[8..12]` panic on a shorter value.
unfoldable pub time_of : {E : Type 0} → Bytes → Res E DbfsTimeSpec
time_of value =
    if leb 12 (length value)
    then ok (record { sec = from_be (take 8 value); nsec = from_be (take 4 (drop 8 value)) })
    else panic
