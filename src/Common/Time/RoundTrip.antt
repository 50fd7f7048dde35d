-- ===== src/Common/Time/RoundTrip.antt =====
-- A time that was stored is read back.
use dbfs.Prelude.{
  ℕ, ◌^◌, ◌<◌, ◌≡◌, ap, ◌∙◌, sym, ◌++◌, [], Bytes, length, take, drop, take-append, drop-append,
  length-append, arith, append-nil,
}
use dbfs.Prelude.Res.{ok}
use dbfs.Bytes.{be_bytes}
use dbfs.Bytes.BigEndian.{from_be-be_bytes, length-be_bytes}
use dbfs.Common.Error.{DbfsError}
use dbfs.Common.Time.{DbfsTimeSpec, time_bytes, time_of}

-- The seconds and the nanoseconds fit their words.
pub record IsTime (t : DbfsTimeSpec) : Type 0 where
  pub sec_fits : t.sec < 2 ^ 64
  pub nsec_fits : t.nsec < 2 ^ 32

take-first : (n : ℕ) (xs ys : Bytes) → length xs ≡ n → take n (xs ++ ys) ≡ xs
take-first n xs ys h = rw (← h) (take-append xs ys)

drop-first : (n : ℕ) (xs ys : Bytes) → length xs ≡ n → drop n (xs ++ ys) ≡ ys
drop-first n xs ys h = rw (← h) (drop-append xs ys)

length-time_bytes : (t : DbfsTimeSpec) → length (time_bytes t) ≡ 12
unfolding time_bytes
length-time_bytes t =
    length-append (be_bytes 8 t.sec) (be_bytes 4 t.nsec)
    ∙ omega (arith, length-be_bytes 8 t.sec, length-be_bytes 4 t.nsec)

front : (t : DbfsTimeSpec) → take 8 (time_bytes t) ≡ be_bytes 8 t.sec
unfolding time_bytes
front t = take-first 8 (be_bytes 8 t.sec) (be_bytes 4 t.nsec) (length-be_bytes 8 t.sec)

back : (t : DbfsTimeSpec) → take 4 (drop 8 (time_bytes t)) ≡ be_bytes 4 t.nsec
unfolding time_bytes
back t =
    ap (λ v. take 4 v)
      (drop-first 8 (be_bytes 8 t.sec) (be_bytes 4 t.nsec) (length-be_bytes 8 t.sec)
        ∙ sym (append-nil (be_bytes 4 t.nsec)))
    ∙ take-first 4 (be_bytes 4 t.nsec) [] (length-be_bytes 4 t.nsec)

-- `DbfsTimeSpec::from` gives back the time that `to_be_bytes` wrote, if its parts fit their words.
pub time_of-time_bytes :
    (t : DbfsTimeSpec) → IsTime t → time_of {E = DbfsError} (time_bytes t) ≡ ok t
unfolding time_of
time_of-time_bytes t h = rw (
  length-time_bytes t,
  front t,
  back t,
  from_be-be_bytes 8 t.sec h.sec_fits,
  from_be-be_bytes 4 t.nsec h.nsec_fits,
)
