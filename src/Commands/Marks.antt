-- ===== src/Commands/Marks.antt =====
-- The de-duplication of the high water marks in weBulkCommit, of src/util_commands.cpp.
use mariadb_columnstore_api.Prelude.{
  ℕ, ◌+◌, ◌≡◌, sym, ap, ◌∙◌, List, [], ◌∷◌, ◌++◌, Bool, true, false, ltb, if◌then◌else◌, arith,
  Bool-cases, inl, inr,
}
use mariadb_columnstore_api.Bulk.Calls.{Hwm}
use mariadb_columnstore_api.Commands.WriteEngine.{same_segment, add_hwm, add_hwms}

abbrev larger : ℕ → ℕ → ℕ
larger m n = if ltb m n then n else m

-- The number that a mark adds to a maximum, where it counts.
unfoldable bump : Bool → ℕ → ℕ → ℕ
bump counts v rest = if counts then larger (v + 1) rest else rest

-- One more than the highest mark that a list has for the segment of `k`, and 0 without one.
unfoldable pub height : Hwm → List Hwm → ℕ
unfolding same_segment bump
height k [] = 0
height k (h ∷ hs) = bump (same_segment h k) h.hwm (height k hs)

-- A list that has no mark for the segment of `k`, and one with a mark at most for each segment.
unfoldable pub Without : Hwm → List Hwm → Type 0
unfolding same_segment
Without k [] = Unit
Without k (h ∷ hs) = (same_segment h k ≡ false) × Without k hs

unfoldable pub IsDistinct : List Hwm → Type 0
unfolding Without
IsDistinct [] = Unit
IsDistinct (h ∷ hs) = Without h hs × IsDistinct hs

same_segment_trans : (g h k : Hwm) → same_segment h g ≡ true → same_segment h k ≡ same_segment g k
unfolding same_segment
same_segment_trans g h k e = ground arith

same_segment-sym : (h k : Hwm) → same_segment h k ≡ same_segment k h
unfolding same_segment
same_segment-sym h k = ground arith

larger_assoc : (a b c : ℕ) → larger (larger a b) c ≡ larger a (larger b c)
larger_assoc a b c = ground arith

bump-larger :
    (counts : Bool) (a b r : ℕ)
    → bump counts (larger a b) r ≡ larger (bump counts a r) (bump counts b 0)
unfolding bump
bump-larger counts a b r = ground arith

larger-bump : (counts : Bool) (a r x : ℕ) → bump counts a (larger r x) ≡ larger (bump counts a r) x
unfolding bump
larger-bump counts a r x = ground arith

-- The mark that is put in the place of one of its segment.
unfoldable raised : Hwm → Hwm → Hwm
raised h k = if ltb h.hwm k.hwm then record h { hwm = k.hwm } else h

raised-hwm : (h k : Hwm) → (raised h k).hwm ≡ larger h.hwm k.hwm
unfolding raised
raised-hwm h k = ground arith

same_segment-raised : (h k g : Hwm) → same_segment (raised h k) g ≡ same_segment h g
unfolding raised same_segment
same_segment-raised h k g = ground arith

add_hwm-same :
    (h k : Hwm) (hs : List Hwm) → same_segment h k ≡ true → add_hwm (h ∷ hs) k ≡ raised h k ∷ hs
unfolding add_hwm raised
add_hwm-same h k hs e = ground arith

add_hwm-other :
    (h k : Hwm) (hs : List Hwm) → same_segment h k ≡ false → add_hwm (h ∷ hs) k ≡ h ∷ add_hwm hs k
unfolding add_hwm
add_hwm-other h k hs e = ground arith

height-add_hwm :
    (g : Hwm) (hs : List Hwm) (k : Hwm)
    → height g (add_hwm hs k) ≡ larger (height g hs) (bump (same_segment k g) k.hwm 0)
unfolding height add_hwm
height-add_hwm g [] k = ground arith
height-add_hwm g (h ∷ hs) k = elim (Bool-cases (same_segment h k)) [
  | inl same ↦
      rw
        (
          add_hwm-same h k hs same,
          same_segment-raised h k g,
          raised-hwm h k,
          same_segment_trans k h g same,
        )
        (bump-larger (same_segment k g) h.hwm k.hwm (height g hs))
  | inr other ↦
      rw (add_hwm-other h k hs other, height-add_hwm g hs k)
        (larger-bump (same_segment h g) h.hwm (height g hs) (bump (same_segment k g) k.hwm 0))
]

height-append :
    (g : Hwm) (hs ks : List Hwm) → height g (hs ++ ks) ≡ larger (height g hs) (height g ks)
unfolding height
height-append g [] ks = ground arith
height-append g (h ∷ hs) ks =
    rw (height-append g hs ks) (larger-bump (same_segment h g) h.hwm (height g hs) (height g ks))

bump-zero : (counts : Bool) (a r : ℕ) → bump counts a r ≡ larger (bump counts a 0) r
unfolding bump
bump-zero counts a r = ground arith

height-add_hwms :
    (g : Hwm) (hs ks : List Hwm) → height g (add_hwms hs ks) ≡ larger (height g hs) (height g ks)
unfolding add_hwms height
height-add_hwms g hs [] = ground arith
height-add_hwms g hs (k ∷ ks) =
    let counts = same_segment k g in
    height-add_hwms g (add_hwm hs k) ks
    ∙ ap (λ x. larger x (height g ks)) (height-add_hwm g hs k)
    ∙ larger_assoc (height g hs) (bump counts k.hwm 0) (height g ks)
    ∙ ap (larger (height g hs)) (sym (bump-zero counts k.hwm (height g ks)))

Without-add_hwm :
    (g : Hwm) (hs : List Hwm) (k : Hwm)
    → Without g hs
    → same_segment k g ≡ false
    → Without g (add_hwm hs k)
unfolding Without add_hwm
Without-add_hwm g [] k h e = (e, tt)
Without-add_hwm g (h ∷ hs) k (one, more) e = elim (Bool-cases (same_segment h k)) [
  | inl same ↦ rw (add_hwm-same h k hs same) (same_segment-raised h k g ∙ one, more)
  | inr other ↦ rw (add_hwm-other h k hs other) (one, Without-add_hwm g hs k more e)
]

Without-raised : (h k : Hwm) (hs : List Hwm) → Without h hs → Without (raised h k) hs
unfolding Without
Without-raised h k [] w = tt
Without-raised h k (x ∷ hs) (one, more) = (
  same_segment-sym x (raised h k) ∙ same_segment-raised h k x ∙ same_segment-sym h x ∙ one,
  Without-raised h k hs more,
)

IsDistinct-add_hwm : (hs : List Hwm) (k : Hwm) → IsDistinct hs → IsDistinct (add_hwm hs k)
unfolding IsDistinct add_hwm Without
IsDistinct-add_hwm [] k d = (tt, tt)
IsDistinct-add_hwm (h ∷ hs) k (w, d) = elim (Bool-cases (same_segment h k)) [
  | inl same ↦ rw (add_hwm-same h k hs same) (Without-raised h k hs w, d)
  | inr other ↦
      rw (add_hwm-other h k hs other)
        (Without-add_hwm h hs k w (same_segment-sym k h ∙ other), IsDistinct-add_hwm hs k d)
]

-- Marks that go one by one into a list with one mark at most for each segment leave one at most for
-- each segment, and for every segment the highest mark of the result is the highest of the list
-- and of the marks that went in; a segment without a mark in either has none in the result.
pub add_hwms-highest :
    (hs ks : List Hwm)
    → IsDistinct hs
    → IsDistinct (add_hwms hs ks) × ((g : Hwm) → height g (add_hwms hs ks) ≡ height g (hs ++ ks))
unfolding add_hwms
add_hwms-highest hs ks d =
    (distinct hs ks d, λ g. height-add_hwms g hs ks ∙ sym (height-append g hs ks))
  where
    distinct : (hs ks : List Hwm) → IsDistinct hs → IsDistinct (add_hwms hs ks)
    distinct hs [] d = d
    distinct hs (k ∷ ks) d = distinct (add_hwm hs k) ks (IsDistinct-add_hwm hs k d)
