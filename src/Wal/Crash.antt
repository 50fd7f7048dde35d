-- ===== src/Wal/Crash.antt =====
-- A log that is written entry by entry, and read back after a crash.
use dbfs.Prelude.{
  ℕ, zero, suc, ◌+◌, ◌-◌, ◌^◌, ◌≤◌, ◌<◌, ◌≡◌, refl, ap, sym, ◌∙◌, some, Bytes, List, [], ◌∷◌, ◌++◌,
  append_assoc, length, take, length-append, length-take, take-past, arith,
}
use dbfs.Prelude.Res.{ok}
use native.Mathlib.Decide.{dec_le}
use dbfs.Wal.{WalStorage, WalEntry, Serde, recover_within, append, write_next, WriteAheadLog}
use dbfs.Wal.Recover.{
  Faithful, IsFit, AllFit, encoded, header, image, whole, round-whole, round-short, round-torn,
  length-le_bytes,
}

module _ (Op : Type 0) (W : WalStorage) (J : Serde Op) (T : Faithful W) where
  abbrev size_of : WalEntry Op → ℕ
  size_of e = 4 + length (encoded Op W J e)

  pub length-header : (e : WalEntry Op) → length (header Op W J e) ≡ 4
  length-header e = length-le_bytes 4 (length (encoded Op W J e))

  whole-more :
      (n : ℕ) (e : WalEntry Op) (es : List (WalEntry Op))
      → size_of e ≤ n
      → whole Op W J n (e ∷ es) ≡ suc (whole Op W J (n - size_of e) es)
  unfolding whole
  whole-more n e es h = ground arith

  whole-none :
      (n : ℕ) (e : WalEntry Op) (es : List (WalEntry Op))
      → n < size_of e
      → whole Op W J n (e ∷ es) ≡ 0
  unfolding whole
  whole-none n e es h = ground arith

  pub length-image :
      (e : WalEntry Op) (es : List (WalEntry Op))
      → length (image Op W J (e ∷ es)) ≡ size_of e + length (image Op W J es)
  unfolding image
  length-image e es =
      length-append (header Op W J e) (encoded Op W J e ++ image Op W J es)
      ∙ omega (arith, length-append (encoded Op W J e) (image Op W J es), length-header e)

  -- The bytes of all entries hold all of them.
  pub whole-all :
      (n : ℕ) (es : List (WalEntry Op))
      → length (image Op W J es) ≤ n
      → whole Op W J n es ≡ length es
  unfolding whole image
  whole-all n [] h = refl
  whole-all n (e ∷ es) h =
      let more : length (image Op W J (e ∷ es)) ≡ size_of e + length (image Op W J es) =
        length-image e es in
      whole-more n e es (omega (arith, h, more))
      ∙ ap suc (whole-all (n - size_of e) es (omega (arith, h, more)))

  -- The first bytes of an image, by how many of them there are.
  take-whole :
      (n : ℕ) (e : WalEntry Op) (im : Bytes)
      → size_of e ≤ n
      → take n (header Op W J e ++ (encoded Op W J e ++ im))
        ≡ header Op W J e ++ (encoded Op W J e ++ take (n - size_of e) im)
  take-whole n e im h =
      let hd = header Op W J e in
      let b = encoded Op W J e in
      let split : n ≡ length hd + (length b + (n - size_of e)) = omega (arith, length-header e) in
      ap (λ v. take v (hd ++ (b ++ im))) split
      ∙ take-past (length b + (n - size_of e)) hd (b ++ im)
      ∙ ap (λ v. hd ++ v) (take-past (n - size_of e) b im)

  take-header :
      (n : ℕ) (e : WalEntry Op) (rest : Bytes)
      → 4 ≤ n
      → take n (header Op W J e ++ rest) ≡ header Op W J e ++ take (n - 4) rest
  take-header n e rest h =
      let split : n ≡ length (header Op W J e) + (n - 4) = omega (arith, length-header e) in
      ap (λ v. take v (header Op W J e ++ rest)) split ∙ take-past (n - 4) (header Op W J e) rest

  -- The loop, at the end of what was read so far.
  pub recover_within-front :
      (es : List (WalEntry Op)) (front : Bytes) (n fuel : ℕ) (d : W.Disk)
      → AllFit Op W J es
      → T.contents d ≡ front ++ take n (image Op W J es)
      → length front + length (image Op W J es) < 2 ^ 64
      → length es < fuel
      → (recover_within Op W J fuel d (length front)).0 ≡ take (whole Op W J n es) es
  unfolding recover_within image AllFit whole
  recover_within-front es front n zero d fit h fits enough = absurd (omega arith)
  recover_within-front [] front n (suc fuel) d fit h fits enough =
      rw (round-short Op W J T d front (take n []) h (omega (arith, length-take {A = ℕ} n [])))
  recover_within-front (e ∷ es) front n (suc fuel) d (one, fit) h fits enough =
      elim (dec_le (size_of e) n) [
        | yes more ↦
            (let rest = take (n - size_of e) (image Op W J es) in
              let there : T.contents d ≡ front ++ (header Op W J e ++ (encoded Op W J e ++ rest)) =
                h ∙ ap (λ v. front ++ v) (take-whole n e (image Op W J es) more) in
              let entry = header Op W J e ++ encoded Op W J e in
              let moved : T.contents d ≡ (front ++ entry) ++ rest =
                there
                ∙ ap (λ v. front ++ v)
                    (sym (append_assoc (header Op W J e) (encoded Op W J e) rest))
                ∙ sym (append_assoc front entry rest) in
              let at : length (front ++ entry) ≡ length front + 4 + length (encoded Op W J e) =
                omega (
                  arith,
                  length-append front entry,
                  length-append (header Op W J e) (encoded Op W J e),
                  length-header e,
                ) in
              let ih : (recover_within Op W J fuel d (length (front ++ entry))).0
                  ≡ take (whole Op W J (n - size_of e) es) es =
                recover_within-front es (front ++ entry) (n - size_of e) fuel d fit moved
                  (omega (arith, at, length-image e es, fits)) (omega arith) in
              rw
                (
                  round-whole Op W J T d front e rest one there
                      (omega (arith, length-image e es, fits)),
                  whole-more n e es more,
                  ← at,
                )
                (ap (λ v. e ∷ v) ih))
        | no less ↦ elim (dec_le 4 n) [
          | yes four ↦ rw (
            round-torn Op W J T d front e (take (n - 4) (encoded Op W J e ++ image Op W J es)) one
                (h
                  ∙ ap (λ v. front ++ v)
                      (take-header n e (encoded Op W J e ++ image Op W J es) four))
                (omega (arith, length-take (n - 4) (encoded Op W J e ++ image Op W J es)))
                (omega (arith, length-image e es, fits)),
            whole-none n e es (omega arith),
          )
          | no short ↦ rw (
            round-short Op W J T d front (take n (image Op W J (e ∷ es))) h
                (omega (arith, length-take n (image Op W J (e ∷ es)))),
            whole-none n e es (omega arith),
          )
        ]
      ]

  module _ (log : WriteAheadLog Op W J) (d : W.Disk) where
    -- The log stands at the end of what its storage holds.
    pub record AtEnd : Type 0 where
      pub storage_at : log.storage ≡ some d
      pub offset_at : log.next_offset ≡ length (T.contents d)

    write_next-AtEnd :
        (bytes : Bytes)
        → AtEnd
        → length (T.contents d) + length bytes < 2 ^ 64
        → (d' : W.Disk) × (write_next Op W J bytes log
            ≡ (ok tt, record log { storage = some d'; next_offset = length (T.contents d') }))
          × (T.contents d' ≡ T.contents d ++ bytes)
    unfolding write_next
    write_next-AtEnd bytes end fits =
        let (d', wrote, grown) = T.write_law log.next_offset bytes d end.offset_at in
        (
          d',
          rw (end.storage_at, wrote)
              (ap (λ v. (ok tt, record log { storage = some d'; next_offset = v }))
                (omega
                  (arith, end.offset_at, ap length grown, length-append (T.contents d) bytes))),
          grown,
        )

  -- An entry that fits is written behind what is there.
  pub append-AtEnd :
      (log : WriteAheadLog Op W J) (d : W.Disk) (e : WalEntry Op)
      → AtEnd log d
      → IsFit Op W J e
      → length (T.contents d) + size_of e < 2 ^ 64
      → (d' : W.Disk) × (append Op W J e.txn_id e.operation log ≡ (
        ok tt,
        record {
          entries = log.entries ++ (e ∷ []);
          storage = some d';
          next_offset = length (T.contents d');
        },
      ))
        × (T.contents d' ≡ T.contents d ++ (header Op W J e ++ encoded Op W J e))
  unfolding append
  append-AtEnd log d e end fit fits =
      let b = encoded Op W J e in
      let (d1, wrote1, grown1) =
        write_next-AtEnd log d (header Op W J e) end (omega (arith, length-header e)) in
      let end1 : AtEnd (record log { storage = some d1; next_offset = length (T.contents d1) }) d1 =
        record { storage_at = refl; offset_at = refl } in
      let (d2, wrote2, grown2) =
        write_next-AtEnd (record log { storage = some d1; next_offset = length (T.contents d1) }) d1
          b end1
          (omega (
            arith,
            ap length grown1,
            length-append (T.contents d) (header Op W J e),
            length-header e,
          )) in
      (
        d2,
        rw (fit.writes, wrote1, wrote2),
        grown2 ∙ ap (λ v. v ++ b) grown1 ∙ append_assoc (T.contents d) (header Op W J e) b,
      )
