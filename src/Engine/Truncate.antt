-- ===== src/Engine/Truncate.antt =====
-- A truncation keeps the bytes before the new end where they are, and no others.
use dbfs.Prelude.{
  ℕ, ◌+◌, ◌-◌, ◌^◌, ◌≤◌, ◌<◌, ◌≡◌, refl, sym, ◌∙◌, true, false, none, some, List, [], ◌∷◌, ltb,
  arith, Bool-cases, inl, inr,
}
use dbfs.Prelude.Words.{add64}
use native.Mathlib.Decide.{dec_lt}
use dbfs.Engine.{
  Extent, InodeMetadata, holds, find_extent, locate, cut_extent, truncate_extents,
  truncate_metadata,
}

-- No extent ends past the last offset.
unfoldable pub AllBounded : List Extent → Type 0
AllBounded [] = Unit {0}
AllBounded (e ∷ es) = (e.logical_off + e.len < 2 ^ 64) × AllBounded es

module _ (new_size : ℕ) (e : Extent) (bounded : e.logical_off + e.len < 2 ^ 64) where
  holds-cut_extent-before :
      (offset : ℕ)
      → offset < new_size
      → e.logical_off < new_size
      → holds offset (cut_extent new_size e) ≡ holds offset e
  unfolding holds cut_extent
  holds-cut_extent-before offset h start = ground arith

  holds-cut_extent-behind :
      (offset : ℕ)
      → new_size ≤ offset
      → e.logical_off < new_size
      → holds offset (cut_extent new_size e) ≡ false
  unfolding holds cut_extent
  holds-cut_extent-behind offset h start = ground arith

  holds-dropped :
      (offset : ℕ) → offset < new_size → new_size ≤ e.logical_off → holds offset e ≡ false
  unfolding holds
  holds-dropped offset h start = ground arith

  cut_extent-start :
      ((cut_extent new_size e).logical_off ≡ e.logical_off)
      × ((cut_extent new_size e).physical_ptr ≡ e.physical_ptr)
  unfolding cut_extent
  cut_extent-start = ground arith

-- The search at the head of a list.
locate-hit :
    (offset : ℕ) (e : Extent) (es : List Extent)
    → holds offset e ≡ true
    → locate offset (e ∷ es) ≡ some (add64 e.physical_ptr (offset - e.logical_off))
unfolding locate find_extent
locate-hit offset e es h = rw h

locate-miss :
    (offset : ℕ) (e : Extent) (es : List Extent)
    → holds offset e ≡ false
    → locate offset (e ∷ es) ≡ locate offset es
unfolding locate find_extent
locate-miss offset e es h = rw h

truncate-kept :
    (new_size : ℕ) (e : Extent) (es : List Extent)
    → e.logical_off < new_size
    → truncate_extents new_size (e ∷ es) ≡ cut_extent new_size e ∷ truncate_extents new_size es
unfolding truncate_extents
truncate-kept new_size e es h = ground arith

truncate-dropped :
    (new_size : ℕ) (e : Extent) (es : List Extent)
    → new_size ≤ e.logical_off
    → truncate_extents new_size (e ∷ es) ≡ truncate_extents new_size es
unfolding truncate_extents
truncate-dropped new_size e es h = ground arith

before_end :
    (new_size offset : ℕ) (es : List Extent)
    → AllBounded es
    → offset < new_size
    → locate offset (truncate_extents new_size es) ≡ locate offset es
unfolding AllBounded truncate_extents
before_end new_size offset [] bounded h = refl
before_end new_size offset (e ∷ es) (b, bounded) h = elim (dec_lt e.logical_off new_size) [
  | yes start ↦ elim (Bool-cases (holds offset e)) [
    | inl hit ↦ rw (truncate-kept new_size e es start) (
        locate-hit offset (cut_extent new_size e) (truncate_extents new_size es)
          (holds-cut_extent-before new_size e b offset h start ∙ hit)
        ∙ rw ((cut_extent-start new_size e b).0, (cut_extent-start new_size e b).1)
            (sym (locate-hit offset e es hit)))
    | inr miss ↦ rw (truncate-kept new_size e es start) (
        locate-miss offset (cut_extent new_size e) (truncate_extents new_size es)
          (holds-cut_extent-before new_size e b offset h start ∙ miss)
        ∙ before_end new_size offset es bounded h
        ∙ sym (locate-miss offset e es miss))
  ]
  | no behind ↦ rw (truncate-dropped new_size e es (omega arith)) (
      before_end new_size offset es bounded h
      ∙ sym (locate-miss offset e es (holds-dropped new_size e b offset h (omega arith))))
]

behind_end :
    (new_size offset : ℕ) (es : List Extent)
    → AllBounded es
    → new_size ≤ offset
    → locate offset (truncate_extents new_size es) ≡ none
unfolding AllBounded truncate_extents locate find_extent
behind_end new_size offset [] bounded h = refl
behind_end new_size offset (e ∷ es) (b, bounded) h = elim (dec_lt e.logical_off new_size) [
  | yes start ↦ rw (truncate-kept new_size e es start) (
      locate-miss offset (cut_extent new_size e) (truncate_extents new_size es)
        (holds-cut_extent-behind new_size e b offset h start)
      ∙ behind_end new_size offset es bounded h)
  | no behind ↦
      rw (truncate-dropped new_size e es (omega arith)) (behind_end new_size offset es bounded h)
]

module _ (new_size : ℕ) (meta : InodeMetadata) where
  abbrev pub Shrunk : InodeMetadata → Type 0
  Shrunk out =
      (out.size ≡ new_size)
      × ((offset : ℕ) → offset < new_size → locate offset out.extents ≡ locate offset meta.extents)
      × ((offset : ℕ) → new_size ≤ offset → locate offset out.extents ≡ none)

  -- A file with no extent past the last offset, made shorter: every byte before the new end is found
  -- where it was, or is a hole where it was one, and no byte from the new end on is found.
  pub truncate-locate :
      AllBounded meta.extents → new_size < meta.size → Shrunk (truncate_metadata new_size meta)
  unfolding truncate_metadata
  truncate-locate bounded shorter =
      let cut : ltb new_size meta.size ≡ true = ground arith in
      rw cut (
        refl,
        (λ offset h. before_end new_size offset meta.extents bounded h),
        (λ offset h. behind_end new_size offset meta.extents bounded h),
      )
