-- ===== src/Prelude/Buffer.antt =====
-- Buffers of bytes: what a copy into one leaves, byte by byte.
use Prim.Native.Nat.{ℕ, zero, suc, ◌+◌, ◌-◌, ◌≤◌, ◌<◌}
use mathlib.Core.Path.{◌≡◌, refl, ap}
use mathlib.Core.Logic.{◌⊎◌}
use mathlib.Core.List.{[], ◌∷◌}
use mathlib.Core.Option.{Option, none, some}
use native.Mathlib.Omega.{arith}
use dbfs.Prelude.{Bytes, length, take, drop}

-- The byte at an index.
abbrev pub get_elem? : Bytes → ℕ → Option ℕ
get_elem? [] i = none
get_elem? (x ∷ xs) zero = some x
get_elem? (x ∷ xs) (suc i) = get_elem? xs i

-- A buffer after bytes were copied into it from a position on; it keeps its length.
unfoldable pub overlay : Bytes → ℕ → Bytes → Bytes
overlay [] pos bytes = []
overlay (x ∷ xs) (suc pos) bytes = x ∷ overlay xs pos bytes
overlay (x ∷ xs) zero [] = x ∷ xs
overlay (x ∷ xs) zero (b ∷ bs) = b ∷ overlay xs zero bs

pub length-overlay :
    (buf : Bytes) (pos : ℕ) (bytes : Bytes) → length (overlay buf pos bytes) ≡ length buf
unfolding overlay
length-overlay [] pos bytes = refl
length-overlay (x ∷ xs) (suc pos) bytes = ap suc (length-overlay xs pos bytes)
length-overlay (x ∷ xs) zero [] = refl
length-overlay (x ∷ xs) zero (b ∷ bs) = ap suc (length-overlay xs zero bs)

-- A buffer that is overwritten from its start to its end.
pub overlay-whole : (buf bytes : Bytes) → length buf ≡ length bytes → overlay buf 0 bytes ≡ bytes
unfolding overlay
overlay-whole [] [] h = refl
overlay-whole [] (b ∷ bs) h = absurd (omega arith)
overlay-whole (x ∷ xs) [] h = absurd (omega arith)
overlay-whole (x ∷ xs) (b ∷ bs) h = ap (λ l. b ∷ l) (overlay-whole xs bs (omega arith))

pub get_elem?-take : (n i : ℕ) (xs : Bytes) → i < n → get_elem? (take n xs) i ≡ get_elem? xs i
get_elem?-take zero i xs h = absurd (omega arith)
get_elem?-take (suc n) i [] h = refl
get_elem?-take (suc n) zero (x ∷ xs) h = refl
get_elem?-take (suc n) (suc i) (x ∷ xs) h = get_elem?-take n i xs (omega arith)

pub get_elem?-drop : (n i : ℕ) (xs : Bytes) → get_elem? (drop n xs) i ≡ get_elem? xs (n + i)
get_elem?-drop zero i xs = let e : 0 + i ≡ i = omega arith in rw e
get_elem?-drop (suc n) i [] = refl
get_elem?-drop (suc n) i (x ∷ xs) =
    let e : suc n + i ≡ suc (n + i) = omega arith in rw e (get_elem?-drop n i xs)

-- Inside the copied part the new bytes stand, outside it the old ones.
pub get_elem?-overlay_in :
    (buf : Bytes) (pos : ℕ) (bytes : Bytes) (i : ℕ)
    → pos ≤ i
    → i < pos + length bytes
    → i < length buf
    → get_elem? (overlay buf pos bytes) i ≡ get_elem? bytes (i - pos)
unfolding overlay
get_elem?-overlay_in [] pos bytes i h less fits = absurd (omega arith)
get_elem?-overlay_in (x ∷ xs) (suc pos) bytes zero h less fits = absurd (omega arith)
get_elem?-overlay_in (x ∷ xs) (suc pos) bytes (suc i) h less fits =
    let e : suc i - suc pos ≡ i - pos = omega arith in
    rw e (get_elem?-overlay_in xs pos bytes i (omega arith) (omega arith) (omega arith))
get_elem?-overlay_in (x ∷ xs) zero [] i h less fits = absurd (omega arith)
get_elem?-overlay_in (x ∷ xs) zero (b ∷ bs) zero h less fits = refl
get_elem?-overlay_in (x ∷ xs) zero (b ∷ bs) (suc i) h less fits =
    let a : suc i - 0 ≡ suc i = omega arith in
    let b : i - 0 ≡ i = omega arith in
    rw a (rw b at (get_elem?-overlay_in xs zero bs i (omega arith) (omega arith) (omega arith)))

pub get_elem?-overlay_out :
    (buf : Bytes) (pos : ℕ) (bytes : Bytes) (i : ℕ)
    → (i < pos) ⊎ (pos + length bytes ≤ i)
    → get_elem? (overlay buf pos bytes) i ≡ get_elem? buf i
unfolding overlay
get_elem?-overlay_out [] pos bytes i h = refl
get_elem?-overlay_out (x ∷ xs) (suc pos) bytes zero h = refl
get_elem?-overlay_out (x ∷ xs) (suc pos) bytes (suc i) h =
    get_elem?-overlay_out xs pos bytes i (omega arith)
get_elem?-overlay_out (x ∷ xs) zero [] i h = refl
get_elem?-overlay_out (x ∷ xs) zero (b ∷ bs) zero h = absurd (omega arith)
get_elem?-overlay_out (x ∷ xs) zero (b ∷ bs) (suc i) h =
    get_elem?-overlay_out xs zero bs i (omega arith)
