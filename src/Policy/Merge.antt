-- ===== src/Policy/Merge.antt =====
-- The merging loop: on sorted ranges it keeps the addresses and leaves gaps between the ranges,
-- and a list of ranges with gaps is determined by its addresses.
use zakop.Prelude.{
  ℕ, ◌+◌, ◌≤◌, ◌<◌, ◌≡◌, ◌↔◌, ◌⊎◌, inl, inr, refl, List, [], ◌∷◌, arith, none, some, ltb, leb,
  Bool-cases,
}
use zakop.Policy.Cidr.{
  Ipv4Cidr, before, insert_range, sort_ranges, absorb, merge_from, merge_ranges,
}

abbrev pub InRange : ℕ → Ipv4Cidr → Type 0
InRange x r = (r.start ≤ x) × (x ≤ r.end)

abbrev pub InRanges : ℕ → List Ipv4Cidr → Type 0
InRanges x [] = ⊥
InRanges x (r ∷ rs) = InRange x r ⊎ InRanges x rs

-- A range of addresses below `2 ^ 32`, and a list of such ranges.
abbrev pub IsRange : Ipv4Cidr → Type 0
IsRange r = (r.start ≤ r.end) × (r.end < 0x1_0000_0000)

abbrev pub AreRanges : List Ipv4Cidr → Type 0
AreRanges [] = Unit
AreRanges (r ∷ rs) = IsRange r × AreRanges rs

-- Ordered by their starts, from `lo` on.
abbrev pub SortedFrom : ℕ → List Ipv4Cidr → Type 0
SortedFrom lo [] = Unit
SortedFrom lo (r ∷ rs) = (lo ≤ r.start) × IsRange r × SortedFrom r.start rs

-- With at least one address between two of them, from `lo` on.
abbrev pub Separated : ℕ → List Ipv4Cidr → Type 0
Separated lo [] = Unit
Separated lo (r ∷ rs) = (lo ≤ r.start) × IsRange r × Separated (r.end + 2) rs

SortedFrom-mono :
    (lo lo' : ℕ) (rs : List Ipv4Cidr) → lo' ≤ lo → SortedFrom lo rs → SortedFrom lo' rs
SortedFrom-mono lo lo' [] h s = s
SortedFrom-mono lo lo' (r ∷ rs) h s = (omega arith, s.1, s.2)

Separated-mono : (lo lo' : ℕ) (rs : List Ipv4Cidr) → lo' ≤ lo → Separated lo rs → Separated lo' rs
Separated-mono lo lo' [] h s = s
Separated-mono lo lo' (r ∷ rs) h s = (omega arith, s.1, s.2)

insert_range-SortedFrom :
    (lo : ℕ) (r : Ipv4Cidr) (rs : List Ipv4Cidr)
    → lo ≤ r.start
    → IsRange r
    → SortedFrom lo rs
    → SortedFrom lo (insert_range r rs)
unfolding insert_range
insert_range-SortedFrom lo r [] h v s = (h, v, tt)
insert_range-SortedFrom lo r (x ∷ xs) h v s = elim (Bool-cases (before x r)) [
  | inl after ↦
      rw after
        (s.0, s.1, insert_range-SortedFrom x.start r xs (unfold before in ground arith) v s.2)
  | inr front ↦ rw front (h, v, ((unfold before in ground arith), s.1, s.2))
]

pub sort_ranges-SortedFrom : (rs : List Ipv4Cidr) → AreRanges rs → SortedFrom 0 (sort_ranges rs)
unfolding sort_ranges
sort_ranges-SortedFrom [] v = tt
sort_ranges-SortedFrom (r ∷ rs) v =
    insert_range-SortedFrom 0 r (sort_ranges rs) (omega arith) v.0 (sort_ranges-SortedFrom rs v.1)

insert_range-InRanges :
    (x : ℕ) (r : Ipv4Cidr) (rs : List Ipv4Cidr)
    → InRanges x (insert_range r rs) ↔ (InRange x r ⊎ InRanges x rs)
unfolding insert_range
insert_range-InRanges x r [] = ground arith
insert_range-InRanges x r (y ∷ ys) = ground (arith, insert_range-InRanges x r ys)

pub sort_ranges-InRanges :
    (x : ℕ) (rs : List Ipv4Cidr) → InRanges x (sort_ranges rs) ↔ InRanges x rs
unfolding sort_ranges
sort_ranges-InRanges x [] = ground arith
sort_ranges-InRanges x (r ∷ rs) =
    ground (arith, insert_range-InRanges x r (sort_ranges rs), sort_ranges-InRanges x rs)

-- One round. A range that is absorbed leaves a range over both; one that is not begins later.
absorb_lem :
    (x : ℕ) (last r : Ipv4Cidr)
    → IsRange last
    → IsRange r
    → last.start ≤ r.start
    → ((wider : Ipv4Cidr) × (absorb last r ≡ some wider)
        × (wider.start ≡ last.start)
        × IsRange wider
        × (InRange x wider ↔ (InRange x last ⊎ InRange x r)))
      ⊎ ((absorb last r ≡ none) × (last.end + 2 ≤ r.start))
unfolding absorb
absorb_lem x last r vl vr h = elim (Bool-cases (leb r.start (last.end + 1))) [
  | inl touch ↦ rw touch (elim (Bool-cases (ltb last.end r.end)) [
    | inl grow ↦ inl (record last { end = r.end }, rw grow, refl, ground arith, ground arith)
    | inr keep ↦ inl (last, rw keep, refl, vl, ground arith)
  ])
  | inr apart ↦ rw apart (inr (refl, ground arith))
]

pub merge_from-Separated :
    (x : ℕ) (last : Ipv4Cidr) (rs : List Ipv4Cidr)
    → IsRange last
    → SortedFrom last.start rs
    → Separated last.start (merge_from last rs)
      × (InRanges x (merge_from last rs) ↔ (InRange x last ⊎ InRanges x rs))
unfolding merge_from
merge_from-Separated x last [] v s = ((omega arith, v, tt), ground arith)
merge_from-Separated x last (r ∷ rs) v s = elim (absorb_lem x last r v s.1 s.0) [
  | inl (wider, e, same, w, m) ↦
      let ih =
        merge_from-Separated x wider rs w
          (rw same (SortedFrom-mono r.start last.start rs s.0 s.2)) in
      rw (e, merge_from) (Separated-mono wider.start last.start _ (omega arith) ih.0, ground arith)
  | inr (e, gap) ↦
      let ih = merge_from-Separated x r rs s.1 s.2 in
      rw (e, merge_from)
        ((omega arith, v, Separated-mono r.start (last.end + 2) _ gap ih.0), ground arith)
]

pub merge_ranges-Separated :
    (x : ℕ) (rs : List Ipv4Cidr)
    → SortedFrom 0 rs
    → Separated 0 (merge_ranges rs) × (InRanges x (merge_ranges rs) ↔ InRanges x rs)
unfolding merge_ranges
merge_ranges-Separated x [] s = (tt, ground arith)
merge_ranges-Separated x (r ∷ rs) s =
    let m = merge_from-Separated x r rs s.1 s.2 in
    (Separated-mono r.start 0 _ (omega arith) m.0, m.1)

-- All addresses of a separated list are at or above its bound.
Separated-le : (lo x : ℕ) (rs : List Ipv4Cidr) → Separated lo rs → InRanges x rs → lo ≤ x
Separated-le lo x [] s m = absurd m
Separated-le lo x (r ∷ rs) s m = ground (arith, Separated-le (r.end + 2) x rs s.2)

-- Separated lists that agree on the addresses have the same first range.
head_eq :
    (lo : ℕ) (r : Ipv4Cidr) (rs : List Ipv4Cidr) (s : Ipv4Cidr) (ss : List Ipv4Cidr)
    → Separated lo (r ∷ rs)
    → Separated lo (s ∷ ss)
    → ((x : ℕ) → InRanges x (r ∷ rs) ↔ InRanges x (s ∷ ss))
    → r ≡ s
head_eq lo r rs s ss u v same = ground (
  arith,
  same r.start,
  same s.start,
  same (r.end + 1),
  same (s.end + 1),
  Separated-le (r.end + 2) s.start rs u.2,
  Separated-le (s.end + 2) r.start ss v.2,
  Separated-le (r.end + 2) (r.end + 1) rs u.2,
  Separated-le (s.end + 2) (s.end + 1) ss v.2,
)

pub Separated-ext :
    (lo : ℕ) (rs ss : List Ipv4Cidr)
    → Separated lo rs
    → Separated lo ss
    → ((x : ℕ) → InRanges x rs ↔ InRanges x ss)
    → rs ≡ ss
Separated-ext lo [] [] u v same = refl
Separated-ext lo [] (s ∷ ss) u v same = absurd ((same s.start).1 (inl (omega arith)))
Separated-ext lo (r ∷ rs) [] u v same = absurd ((same r.start).0 (inl (omega arith)))
Separated-ext lo (r ∷ rs) (s ∷ ss) u v same =
    let first = head_eq lo r rs s ss u v same in
    let rest = Separated-ext (r.end + 2) rs ss u.2 (rw first v.2) (λ x. (
      (λ m. ground (arith, same x, Separated-le (r.end + 2) x rs u.2)),
      λ m. ground (arith, same x, Separated-le (s.end + 2) x ss v.2),
    )) in
    cc
