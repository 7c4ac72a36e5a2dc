-- ===== src/Parrot/Admin/Breakdown.antt =====
-- frontend/src/features/parrot/components/parrot-tool-breakdown.tsx: the order and the bars of the
-- breakdown.
use mathlib.Core.List.Permᴰ
use mathlib.Core.List.{Permᴰ}
use webmeow.Prelude.{
  ℕ, ◌*◌, ◌≤◌, ◌<◌, ◌≡◌, refl, sym, ap, length, subst, List, [], ◌∷◌, map, keep, eqb, leb, All,
  All_map, arith, Bool-cases, inl, inr,
}
use webmeow.Pages.RoomSummary.{Fraction}
use webmeow.Parrot.Admin.{
  ToolCount, ToolBar, tool_bar, insert, sort, max_count, BreakdownView, no_tool_calls, tool_bars,
  bars_of, tool_breakdown,
}

-- A percentage is a number, and is `n`.
abbrev pub IsPercent : ℕ → Fraction → Type 0
IsPercent n f = (0 < f.bottom) × (f.top ≡ n * f.bottom)

-- A percentage is a number, and no more than 100.
abbrev pub IsAtMost100 : Fraction → Type 0
IsAtMost100 f = (0 < f.bottom) × (f.top ≤ 100 * f.bottom)

abbrev pub IsDescending : List ToolCount → Type 0
IsDescending [] = Unit
IsDescending (x ∷ xs) = All (λ y. y.count ≤ x.count) xs × IsDescending xs

-- The tools with one count, in their order.
abbrev pub with_count : ℕ → List ToolCount → List ToolCount
with_count c = keep (λ (x : ToolCount). eqb x.count c)

insert-Permᴰ : (x : ToolCount) (ys : List ToolCount) → Permᴰ (insert x ys) (x ∷ ys)
unfolding insert
insert-Permᴰ x [] = Permᴰ.refl (x ∷ [])
insert-Permᴰ x (y ∷ ys) = elim (Bool-cases (leb y.count x.count)) [
  | inl e ↦ rw e (Permᴰ.refl (x ∷ y ∷ ys))
  | inr e ↦ rw e (Permᴰ.trans (Permᴰ.cons refl (insert-Permᴰ x ys)) (Permᴰ.swap refl refl))
]

sort-Permᴰ : (xs : List ToolCount) → Permᴰ (sort xs) xs
unfolding sort
sort-Permᴰ [] = Permᴰ.nil
sort-Permᴰ (x ∷ xs) = Permᴰ.trans (insert-Permᴰ x (sort xs)) (Permᴰ.cons refl (sort-Permᴰ xs))

insert-All :
    (n : ℕ) (x : ToolCount) (ys : List ToolCount)
    → x.count ≤ n
    → All (λ y. y.count ≤ n) ys
    → All (λ y. y.count ≤ n) (insert x ys)
unfolding insert
insert-All n x [] le h = (le, tt)
insert-All n x (y ∷ ys) le h = elim (Bool-cases (leb y.count x.count)) [
  | inl e ↦ rw e (le, h)
  | inr e ↦ rw e (h.0, insert-All n x ys le h.1)
]

insert-IsDescending :
    (x : ToolCount) (ys : List ToolCount) → IsDescending ys → IsDescending (insert x ys)
unfolding insert
insert-IsDescending x [] h = (tt, tt)
insert-IsDescending x (y ∷ ys) h = elim (Bool-cases (leb y.count x.count)) [
  | inl e ↦
      let le : y.count ≤ x.count = ground arith in
      rw e ((le, All_map _ _ ys (λ z z_le. omega arith) h.0), h)
  | inr e ↦ rw e (insert-All y.count x ys (ground arith) h.0, insert-IsDescending x ys h.1)
]

sort-IsDescending : (xs : List ToolCount) → IsDescending (sort xs)
unfolding sort
sort-IsDescending [] = tt
sort-IsDescending (x ∷ xs) = insert-IsDescending x (sort xs) (sort-IsDescending xs)

insert-with_count :
    (c : ℕ) (x : ToolCount) (ys : List ToolCount)
    → with_count c (insert x ys) ≡ with_count c (x ∷ ys)
unfolding insert
insert-with_count c x [] = refl
insert-with_count c x (y ∷ ys) = ground (arith, insert-with_count c x ys)

sort-with_count : (c : ℕ) (xs : List ToolCount) → with_count c (sort xs) ≡ with_count c xs
unfolding sort
sort-with_count c [] = refl
sort-with_count c (x ∷ xs) =
    rw (insert-with_count c x (sort xs)) (ground (arith, sort-with_count c xs))

insert-called :
    (x : ToolCount) (ys : List ToolCount)
    → 0 < x.count
    → All (λ y. 0 < y.count) ys
    → All (λ y. 0 < y.count) (insert x ys)
unfolding insert
insert-called x [] has h = (has, tt)
insert-called x (y ∷ ys) has h = elim (Bool-cases (leb y.count x.count)) [
  | inl e ↦ rw e (has, h)
  | inr e ↦ rw e (h.0, insert-called x ys has h.1)
]

sort-called : (xs : List ToolCount) → All (λ y. 0 < y.count) xs → All (λ y. 0 < y.count) (sort xs)
unfolding sort
sort-called [] h = tt
sort-called (x ∷ xs) h = insert-called x (sort xs) h.0 (sort-called xs h.1)

max_count-le : (n : ℕ) (xs : List ToolCount) → All (λ y. y.count ≤ n) xs → max_count xs ≤ n
unfolding max_count
max_count-le n [] h = omega arith
max_count-le n (x ∷ xs) h = ground (arith, h.0, max_count-le n xs h.1)

max_count-head :
    (x : ToolCount) (xs : List ToolCount) → IsDescending (x ∷ xs) → max_count (x ∷ xs) ≡ x.count
unfolding max_count
max_count-head x xs h = ground (arith, max_count-le x.count xs h.0)

tools : (m : ℕ) (xs : List ToolCount) → map (λ (b : ToolBar). b.tool) (map (tool_bar m) xs) ≡ xs
tools m [] = refl
tools m (x ∷ xs) = cc (tools m xs)

bars_fit :
    (m : ℕ) (xs : List ToolCount)
    → 0 < m
    → All (λ y. y.count ≤ m) xs
    → All (λ (b : ToolBar). IsAtMost100 b.width) (map (tool_bar m) xs)
bars_fit m [] has h = tt
bars_fit m (x ∷ xs) has h = ((has, omega (arith, h.0)), bars_fit m xs has h.1)

-- The bar of the first row is as wide as it can be.
abbrev pub IsFirstFull : List ToolBar → Type 0
IsFirstFull [] = Unit
IsFirstFull (b ∷ bs) = IsPercent 100 b.width

abbrev pub IsSorted : List ToolCount → List ToolCount → Type 0
IsSorted by_name sorted =
    Permᴰ sorted by_name
    × IsDescending sorted
    × ((c : ℕ) → with_count c sorted ≡ with_count c by_name)

abbrev pub IsBreakdown : List ToolCount → BreakdownView → Type 0
IsBreakdown by_name no_tool_calls = by_name ≡ []
IsBreakdown by_name (tool_bars bars) =
    IsSorted by_name (map (λ (b : ToolBar). b.tool) bars)
    × All (λ (b : ToolBar). IsAtMost100 b.width) bars
    × IsFirstFull bars

none_counted : (xs : List ToolCount) → ((c : ℕ) → [] ≡ with_count c xs) → xs ≡ []
none_counted [] h = refl
none_counted (x ∷ xs) h = absurd (ground (arith, ap length (h x.count)))

bars_of-IsBreakdown :
    (by_name sorted : List ToolCount)
    → All (λ x. 0 < x.count) sorted
    → IsSorted by_name sorted
    → IsBreakdown by_name (bars_of sorted)
bars_of-IsBreakdown by_name [] called (perm, ordered, stable) = none_counted by_name stable
bars_of-IsBreakdown by_name (x ∷ xs) called (perm, ordered, stable) =
    let most : max_count (x ∷ xs) ≡ x.count = max_count-head x xs ordered in
    (
      subst (IsSorted by_name) (sym (tools (max_count (x ∷ xs)) (x ∷ xs))) (perm, ordered, stable),
      bars_fit (max_count (x ∷ xs)) (x ∷ xs) (omega (arith, most, called.0))
          (omega (arith, most), All_map _ _ xs (λ z le. omega (arith, most, le)) ordered.0),
      (omega (arith, most, called.0), omega (arith, most)),
    )

-- Where every tool that is counted was called, the breakdown says that there are no tool calls only if
-- no tool is counted. Else its rows are the
-- tools with their counts in another order, from the largest count to the smallest, the tools of one
-- count in the order they came in; no bar is wider than 100%, and the first bar is 100% wide.
pub tool_breakdown-IsBreakdown :
    (by_name : List ToolCount)
    → All (λ x. 0 < x.count) by_name
    → IsBreakdown by_name (tool_breakdown by_name)
unfolding tool_breakdown
tool_breakdown-IsBreakdown by_name called =
    bars_of-IsBreakdown by_name (sort by_name) (sort-called by_name called)
      (sort-Permᴰ by_name, sort-IsDescending by_name, λ c. sort-with_count c by_name)
