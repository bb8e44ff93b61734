-- ===== src/Search/Insertion.antt =====
-- A runtime that does what internal/search.go is promised: a range in the order of insertion, and an
-- insertion sort.
use mathlib.Core.List.{Permᴰ}
use mathlib.Core.List.Permᴰ
use google_in_a_day_crawler.Base.{
  inr, inl, ◌≡◌, refl, Bool, true, false, List, [], ◌∷◌, All-perm, All-map, Bool-cases,
}
use google_in_a_day_crawler.Search.{SearchResult, Runtime}
use google_in_a_day_crawler.Search.Ranking.{IsWeakOrder, Ascending, RuntimeLaws}

abbrev Less : Type 0
Less = SearchResult → SearchResult → Bool

insert : Less → SearchResult → List SearchResult → List SearchResult
insert less r [] = r ∷ []
insert less r (s ∷ rs) = elim (less s r) [ true ↦ s ∷ insert less r rs | false ↦ r ∷ s ∷ rs ]

unfoldable pub insertion_sort : Less → List SearchResult → List SearchResult
unfolding insert
insertion_sort less [] = []
insertion_sort less (r ∷ rs) = insert less r (insertion_sort less rs)

insert-perm :
    (less : Less) (r : SearchResult) (rs : List SearchResult) → Permᴰ (r ∷ rs) (insert less r rs)
unfolding insert
insert-perm less r [] = Permᴰ.refl _
insert-perm less r (s ∷ rs) = elim (Bool-cases (less s r)) [
  | inl e ↦
      rw (e, insert) (Permᴰ.trans (Permᴰ.swap refl refl) (Permᴰ.cons refl (insert-perm less r rs)))
  | inr e ↦ rw (e, insert) (Permᴰ.refl _)
]

sort-perm : (less : Less) (rs : List SearchResult) → Permᴰ rs (insertion_sort less rs)
unfolding insertion_sort
sort-perm less [] = Permᴰ.nil
sort-perm less (r ∷ rs) =
    Permᴰ.trans (Permᴰ.cons refl (sort-perm less rs)) (insert-perm less r (insertion_sort less rs))

insert-Ascending :
    (less : Less) (r : SearchResult) (rs : List SearchResult)
    → IsWeakOrder less
    → Ascending less rs
    → Ascending less (insert less r rs)
unfolding insert
insert-Ascending less r [] o a = (tt, tt)
insert-Ascending less r (s ∷ rs) o a = elim (Bool-cases (less s r)) [
  | inl e ↦
      rw (e, insert, Ascending)
        (
          All-perm (λ x. less x s ≡ false) (insert-perm less r rs) (o.asymmetric s r e, a.0),
          insert-Ascending less r rs o a.1,
        )
  | inr e ↦
      rw (e, insert, Ascending)
        (
          (
            e,
            All-map (λ x. less x s ≡ false) (λ x. less x r ≡ false) rs
                (λ x h. o.negatively_transitive x s r h e) a.0,
          ),
          a,
        )
]

sort-Ascending :
    (less : Less) (rs : List SearchResult)
    → IsWeakOrder less
    → Ascending less (insertion_sort less rs)
unfolding insertion_sort
sort-Ascending less [] o = tt
sort-Ascending less (r ∷ rs) o =
    insert-Ascending less r (insertion_sort less rs) o (sort-Ascending less rs o)

abbrev pub plain_runtime : Runtime
plain_runtime = record { range_infos = λ infos. infos; sort_slice = insertion_sort }

pub plain_runtime-RuntimeLaws : RuntimeLaws plain_runtime
plain_runtime-RuntimeLaws = record {
  ranges_over_all = λ infos. Permᴰ.refl infos;
  rearranges = sort-perm;
  sorts = sort-Ascending;
}
