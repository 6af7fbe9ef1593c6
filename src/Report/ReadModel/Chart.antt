-- ===== src/Report/ReadModel/Chart.antt =====
-- The order of the shirt counts.
use go_finish_line_api.Prelude.{
  ℕ, zero, suc, ◌+◌, ◌<◌, ◌≤◌, ◌≡◌, refl, sym, ap, ◌∙◌, Bool, true, false, not, List, [], ◌∷◌, ◌++◌,
  All, any, select, ◌==◌, arith, Bool-cases, inl, inr,
}
use go_finish_line_api.Text.{Text, codes, text_eq}
use go_finish_line_api.Text.Laws.{text_eq→eq}
use go_finish_line_api.Sort.{insert_by, sort_by}
use go_finish_line_api.Report.ReadModel.{ShirtSizeCount, shirt_size_rank, smaller, sort_shirt_sizes}

abbrev rank : ShirtSizeCount → ℕ
rank c = shirt_size_rank c.size

abbrev pub of_rank : ℕ → ShirtSizeCount → Bool
of_rank k c = shirt_size_rank c.size == k

-- The ranks never go down, from a lower bound on.
abbrev pub RisesFrom : ℕ → List ShirtSizeCount → Type 0
RisesFrom k [] = Unit {0}
RisesFrom k (c ∷ cs) = (k ≤ shirt_size_rank c.size) × RisesFrom (shirt_size_rank c.size) cs

insert-rises :
    (k : ℕ) (c : ShirtSizeCount) (cs : List ShirtSizeCount)
    → k ≤ rank c
    → RisesFrom k cs
    → RisesFrom k (insert_by smaller c cs)
unfolding insert_by
insert-rises k c [] h r = (h, tt)
insert-rises k c (d ∷ cs) h (low, r) = ground (arith, insert-rises (rank d) c cs)

-- Counts of one rank keep their order: among those of each rank nothing moves.
insert-select :
    (k : ℕ) (c : ShirtSizeCount) (cs : List ShirtSizeCount)
    → select (of_rank k) (insert_by smaller c cs) ≡ select (of_rank k) (c ∷ cs)
unfolding insert_by
insert-select k c [] = refl
insert-select k c (d ∷ cs) = ground (arith, insert-select k c cs)

sort-rises : (cs : List ShirtSizeCount) → RisesFrom 0 (sort_by smaller cs)
unfolding sort_by
sort-rises [] = tt
sort-rises (c ∷ cs) = insert-rises 0 c (sort_by smaller cs) (omega arith) (sort-rises cs)

sort-select :
    (k : ℕ) (cs : List ShirtSizeCount)
    → select (of_rank k) (sort_by smaller cs) ≡ select (of_rank k) cs
unfolding sort_by
sort-select k [] = refl
sort-select k (c ∷ cs) = ground (arith, insert-select k c (sort_by smaller cs), sort-select k cs)

-- One block to a rank, from one rank on.
abbrev blocks : (n k : ℕ) → List ShirtSizeCount → List ShirtSizeCount
blocks zero k cs = []
blocks (suc n) k cs = select (of_rank k) cs ++ blocks n (k + 1) cs

blocks-nil : (n k : ℕ) → blocks n k [] ≡ []
blocks-nil zero k = refl
blocks-nil (suc n) k = blocks-nil n (k + 1)

blocks-skip :
    (n k : ℕ) (c : ShirtSizeCount) (cs : List ShirtSizeCount)
    → rank c < k
    → blocks n k (c ∷ cs) ≡ blocks n k cs
blocks-skip zero k c cs h = refl
blocks-skip (suc n) k c cs h = ground (arith, blocks-skip n (k + 1) c cs)

blocks-same :
    (n k : ℕ) (cs ds : List ShirtSizeCount)
    → ((j : ℕ) → select (of_rank j) cs ≡ select (of_rank j) ds)
    → blocks n k cs ≡ blocks n k ds
blocks-same zero k cs ds h = refl
blocks-same (suc n) k cs ds h = rw (h k, blocks-same n (k + 1) cs ds h) refl

none_low :
    (j k : ℕ) (cs : List ShirtSizeCount) → RisesFrom k cs → j < k → select (of_rank j) cs ≡ []
none_low j k [] r h = refl
none_low j k (c ∷ cs) (low, r) h = ground (arith, none_low j (rank c) cs)

-- A list of rising ranks is its blocks.
rising-blocks :
    (n k top : ℕ) (cs : List ShirtSizeCount)
    → top ≡ k + n
    → RisesFrom k cs
    → All (λ c. rank c < top) cs
    → cs ≡ blocks n k cs
rising-blocks n k top [] e r h = sym (blocks-nil n k)
rising-blocks zero k top (c ∷ cs) e (low, r) (high, hs) = absurd (omega (arith, low, high, e))
rising-blocks (suc n) k top (c ∷ cs) e (low, r) (high, hs) = elim (Bool-cases (of_rank k c)) [
  | inl here ↦ rw here (
      ap (λ rest. c ∷ rest)
        (rising-blocks (suc n) k top cs e (ground (arith, r, here)) hs
          ∙ ap (λ rest. select (of_rank k) cs ++ rest)
              (sym (blocks-skip n (k + 1) c cs (ground (arith, here))))))
  | inr above ↦
      rising-blocks n (k + 1) top (c ∷ cs) (omega (arith, e)) (ground (arith, low, above), r)
        (high, hs)
      ∙ ap (λ first. first ++ blocks n (k + 1) (c ∷ cs))
          (sym (none_low k (k + 1) (c ∷ cs) (ground (arith, low, above), r) (omega arith)))
]

-- The counts of one size, and those of the sizes off the chart.
abbrev pub of_size : Text → ShirtSizeCount → Bool
of_size size c = text_eq c.size size

abbrev pub is_off : List Text → ShirtSizeCount → Bool
is_off sizes c = not (any (text_eq c.size) sizes)

abbrev pub charted : (all sizes : List Text) → List ShirtSizeCount → List ShirtSizeCount
charted all [] cs = select (is_off all) cs
charted all (size ∷ sizes) cs = select (of_size size) cs ++ charted all sizes cs

-- The six sizes.
abbrev pub sizes_in_order : List Text
sizes_in_order = codes "XS" ∷ codes "S" ∷ codes "M" ∷ codes "L" ∷ codes "XL" ∷ codes "XXL" ∷ []

abbrev RanksAgree : Text → Type 0
RanksAgree size =
    ((shirt_size_rank size == 0) ≡ text_eq size (codes "XS"))
    × ((shirt_size_rank size == 1) ≡ text_eq size (codes "S"))
    × ((shirt_size_rank size == 2) ≡ text_eq size (codes "M"))
    × ((shirt_size_rank size == 3) ≡ text_eq size (codes "L"))
    × ((shirt_size_rank size == 4) ≡ text_eq size (codes "XL"))
    × ((shirt_size_rank size == 5) ≡ text_eq size (codes "XXL"))
    × ((shirt_size_rank size == 6) ≡ not (any (text_eq size) sizes_in_order))
    × (shirt_size_rank size < 7)

at_size : (size t : Text) → text_eq size t ≡ true → RanksAgree t → RanksAgree size
at_size size t same agrees = rw (text_eq→eq size t same) agrees

off_chart :
    (size : Text)
    → text_eq size (codes "XS") ≡ false
    → text_eq size (codes "S") ≡ false
    → text_eq size (codes "M") ≡ false
    → text_eq size (codes "L") ≡ false
    → text_eq size (codes "XL") ≡ false
    → text_eq size (codes "XXL") ≡ false
    → RanksAgree size
unfolding shirt_size_rank
off_chart size a b c d e f =
    rw (a, b, c, d, e, f) (refl, refl, refl, refl, refl, refl, refl, omega arith)

ranks_agree : (size : Text) → RanksAgree size
unfolding shirt_size_rank text_eq
ranks_agree size = elim (Bool-cases (text_eq size (codes "XS"))) [
  | inl same ↦
      at_size size (codes "XS") same (refl, refl, refl, refl, refl, refl, refl, omega arith)
  | inr a ↦ elim (Bool-cases (text_eq size (codes "S"))) [
    | inl same ↦
        at_size size (codes "S") same (refl, refl, refl, refl, refl, refl, refl, omega arith)
    | inr b ↦ elim (Bool-cases (text_eq size (codes "M"))) [
      | inl same ↦
          at_size size (codes "M") same (refl, refl, refl, refl, refl, refl, refl, omega arith)
      | inr c ↦ elim (Bool-cases (text_eq size (codes "L"))) [
        | inl same ↦
            at_size size (codes "L") same (refl, refl, refl, refl, refl, refl, refl, omega arith)
        | inr d ↦ elim (Bool-cases (text_eq size (codes "XL"))) [
          | inl same ↦
              at_size size (codes "XL") same (refl, refl, refl, refl, refl, refl, refl, omega arith)
          | inr e ↦ elim (Bool-cases (text_eq size (codes "XXL"))) [
            | inl same ↦
                at_size size (codes "XXL") same
                  (refl, refl, refl, refl, refl, refl, refl, omega arith)
            | inr f ↦ off_chart size a b c d e f
          ]
        ]
      ]
    ]
  ]
]

select-agree :
    (p q : ShirtSizeCount → Bool) (cs : List ShirtSizeCount)
    → ((c : ShirtSizeCount) → p c ≡ q c)
    → select p cs ≡ select q cs
select-agree p q [] h = refl
select-agree p q (c ∷ cs) h = rw (h c, select-agree p q cs h) refl

All-ranks : (cs : List ShirtSizeCount) → All (λ c. rank c < 7) cs
All-ranks [] = tt
All-ranks (c ∷ cs) = ((ranks_agree c.size).7, All-ranks cs)

append-nil : (cs : List ShirtSizeCount) → cs ++ [] ≡ cs
append-nil [] = refl
append-nil (c ∷ cs) = ap (λ rest. c ∷ rest) (append-nil cs)

blocks-charted :
    (cs : List ShirtSizeCount) → blocks 7 0 cs ≡ charted sizes_in_order sizes_in_order cs
blocks-charted cs =
    rw
      (
        select-agree (of_rank 0) (of_size (codes "XS")) cs (λ c. (ranks_agree c.size).0),
        select-agree (of_rank 1) (of_size (codes "S")) cs (λ c. (ranks_agree c.size).1),
        select-agree (of_rank 2) (of_size (codes "M")) cs (λ c. (ranks_agree c.size).2),
        select-agree (of_rank 3) (of_size (codes "L")) cs (λ c. (ranks_agree c.size).3),
        select-agree (of_rank 4) (of_size (codes "XL")) cs (λ c. (ranks_agree c.size).4),
        select-agree (of_rank 5) (of_size (codes "XXL")) cs (λ c. (ranks_agree c.size).5),
        select-agree (of_rank 6) (is_off sizes_in_order) cs (λ c. (ranks_agree c.size).6),
        append-nil (select (is_off sizes_in_order) cs),
      )
      refl

-- The counts come in blocks, of XS, S, M, L, XL and XXL and last of the sizes off the chart, and each
-- block has the counts of its size that went in, in the order in which they went in.
pub sort_shirt_sizes_lem :
    (cs : List ShirtSizeCount) → sort_shirt_sizes cs ≡ charted sizes_in_order sizes_in_order cs
unfolding sort_shirt_sizes
sort_shirt_sizes_lem cs =
    rising-blocks 7 0 7 (sort_by smaller cs) refl (sort-rises cs) (All-ranks (sort_by smaller cs))
    ∙ blocks-same 7 0 (sort_by smaller cs) cs (λ k. sort-select k cs)
    ∙ blocks-charted cs
