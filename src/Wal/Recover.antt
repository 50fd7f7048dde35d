-- ===== src/Wal/Recover.antt =====
-- What `recover` finds in a log of which a crash kept only the front.
use dbfs.Prelude.{
  ℕ, zero, suc, ◌+◌, ◌-◌, ◌*◌, ◌/◌, ◌^◌, ◌≤◌, ◌<◌, ◌≡◌, refl, ap, sym, ◌∙◌, false, none, some,
  Bytes, List, [], ◌∷◌, ◌++◌, append_assoc, length, take, drop, length-append, take-append,
  drop-append, arith, leb, if◌then◌else◌,
}
use dbfs.Prelude.Res.{ok, err, panic}
use dbfs.Prelude.Words.{add64}
use dbfs.Wal.{bad_size, WalStorage, WalEntry, Serde, le_bytes, from_le, stop, next, round}

-- A storage that holds a byte string: a write at its end appends, and a read of bytes that are not
-- all there fails; a storage that reads fewer bytes and reports success is not faithful.
pub record Faithful (W : WalStorage) : Type 0 where
  pub contents : W.Disk → Bytes
  pub write_law :
      (offset : ℕ) (bytes : Bytes) (d : W.Disk)
      → offset ≡ length (contents d)
      → (d' : W.Disk) × (W.write offset bytes d ≡ (ok tt, d')) × (contents d' ≡ contents d ++ bytes)
  pub read_law :
      (offset n : ℕ) (d : W.Disk)
      → W.read offset n d ≡ (
          if leb (offset + n) (length (contents d))
          then some (take n (drop offset (contents d)))
          else none)
  pub truncate_law :
      (d : W.Disk) → (d' : W.Disk) × (W.truncate 0 d ≡ (ok tt, d')) × (contents d' ≡ [])
  pub flush_law : (d : W.Disk) → W.flush d ≡ (ok tt, d)

pub length-le_bytes : (w n : ℕ) → length (le_bytes w n) ≡ w
unfolding le_bytes
length-le_bytes zero n = refl
length-le_bytes (suc w) n = ap suc (length-le_bytes w (n / 256))

pub from_le-le_bytes : (n : ℕ) → n < 2 ^ 32 → from_le (le_bytes 4 n) ≡ n
unfolding le_bytes from_le
from_le-le_bytes n h = omega arith

read_at :
    (W : WalStorage) (T : Faithful W) (d : W.Disk) (front middle rest : Bytes) (offset n : ℕ)
    → T.contents d ≡ front ++ (middle ++ rest)
    → offset ≡ length front
    → n ≡ length middle
    → W.read offset n d ≡ some middle
read_at W T d front middle rest offset n h e_offset e_n =
    rw
      (
        T.read_law offset n d,
        h,
        e_offset,
        e_n,
        drop-append front (middle ++ rest),
        take-append middle rest,
      )
      (ground (arith, length-append front (middle ++ rest), length-append middle rest))

read_short :
    (W : WalStorage) (T : Faithful W) (d : W.Disk) (front rest : Bytes) (offset n : ℕ)
    → T.contents d ≡ front ++ rest
    → offset ≡ length front
    → length rest < n
    → W.read offset n d ≡ none
read_short W T d front rest offset n h e_offset short =
    rw (T.read_law offset n d, h, e_offset) (ground (arith, length-append front rest))

module _ (Op : Type 0) (W : WalStorage) (J : Serde Op) where
  -- What is written of an entry, and of a list of entries.
  abbrev pub encoded : WalEntry Op → Bytes
  encoded e = elim (J.to_vec e) [ ok bytes ↦ bytes | err m ↦ [] | panic ↦ [] ]

  abbrev pub header : WalEntry Op → Bytes
  header e = le_bytes 4 (length (encoded e))

  unfoldable pub image : List (WalEntry Op) → Bytes
  image [] = []
  image (e ∷ es) = header e ++ (encoded e ++ image es)

  -- serde reads the entry back, and its text is neither empty nor longer than a MiB.
  pub record IsFit (e : WalEntry Op) : Type 0 where
    pub writes : J.to_vec e ≡ ok (encoded e)
    pub reads : J.from_slice (encoded e) ≡ some e
    pub pos : 0 < length (encoded e)
    pub small : length (encoded e) ≤ 1024 * 1024

  unfoldable pub AllFit : List (WalEntry Op) → Type 0
  AllFit [] = Unit {0}
  AllFit (e ∷ es) = IsFit e × AllFit es

  -- How many entries lie within the first `n` bytes.
  unfoldable pub whole : ℕ → List (WalEntry Op) → ℕ
  whole n [] = 0
  whole n (e ∷ es) =
      let rest = whole (n - (4 + length (encoded e))) es in
      if leb (4 + length (encoded e)) n then suc rest else 0

  sane : (size : ℕ) → 0 < size → size ≤ 1024 * 1024 → bad_size Op W J size ≡ false
  sane size pos small = ground arith

  module _ (T : Faithful W) (d : W.Disk) (front : Bytes) where
    pub round-whole :
        (e : WalEntry Op) (rest : Bytes)
        → IsFit e
        → T.contents d ≡ front ++ (header e ++ (encoded e ++ rest))
        → length front + 4 + length (encoded e) < 2 ^ 64
        → round Op W J d (length front) ≡ next (length front + 4 + length (encoded e)) (some e)
    unfolding round
    round-whole e rest fit h fits =
        let b = encoded e in
        let four : length (header e) ≡ 4 = length-le_bytes 4 (length b) in
        rw
          (
            read_at W T d front (header e) (b ++ rest) (length front) 4 h refl (sym four),
            from_le-le_bytes (length b) (omega (arith, fit.small)),
            sane (length b) fit.pos fit.small,
            read_at W T d (front ++ header e) b rest (add64 (length front) 4) (length b)
                (h ∙ sym (append_assoc front (header e) (b ++ rest)))
                (omega (arith, length-append front (header e), four)) refl,
            fit.reads,
          )
          (ap (λ v. next v (some e)) (omega arith))

    pub round-short :
        (rest : Bytes)
        → T.contents d ≡ front ++ rest
        → length rest < 4
        → round Op W J d (length front) ≡ stop (length front)
    unfolding round
    round-short rest h short = rw (read_short W T d front rest (length front) 4 h refl short)

    pub round-torn :
        (e : WalEntry Op) (rest : Bytes)
        → IsFit e
        → T.contents d ≡ front ++ (header e ++ rest)
        → length rest < length (encoded e)
        → length front + 4 < 2 ^ 64
        → round Op W J d (length front) ≡ stop (length front + 4)
    unfolding round
    round-torn e rest fit h short fits =
        let b = encoded e in
        let four : length (header e) ≡ 4 = length-le_bytes 4 (length b) in
        rw
          (
            read_at W T d front (header e) rest (length front) 4 h refl (sym four),
            from_le-le_bytes (length b) (omega (arith, fit.small)),
            sane (length b) fit.pos fit.small,
            read_short W T d (front ++ header e) rest (add64 (length front) 4) (length b)
                (h ∙ sym (append_assoc front (header e) rest))
                (omega (arith, length-append front (header e), four)) short,
          )
          (ap stop (omega arith))
