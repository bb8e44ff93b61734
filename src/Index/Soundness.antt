-- ===== src/Index/Soundness.antt =====
-- The invariant of the index of internal/index/index.go: what a list of postings may hold.
use google_in_a_day_crawler.Base.{
  inr, subst, Bool-cases, inl, All-append, ◌⊎◌, Text_discrete, ◌≡◌, refl, true, List, [], ◌∷◌,
  arith, pos, ◌≤ℤ◌, Text, contains, All, contains-count,
}
use google_in_a_day_crawler.Tokens.{Unicode}
use google_in_a_day_crawler.Tokens.Words.{IsIndexed, tokenize-IsIndexed}
use google_in_a_day_crawler.Index.{
  Document, Index, title_tokens, body_tokens, all_tokens, add_document, lookup, IsRangeOf,
  new_index,
}
use google_in_a_day_crawler.Index.Adding.{words, lookup-add_document}

-- Each posting counts at least one occurrence, and a token with a posting is a word of the index.
pub record IsSound (u : Unicode) (idx : Index) : Type 0 where
  pub occurs : (k : Text) → All (λ p. pos 1 ≤ℤ p.term_freq) (lookup idx k)
  pub indexed : (k : Text) → (lookup idx k ≡ []) ⊎ IsIndexed u k

pub new_index-IsSound : (u : Unicode) → IsSound u new_index
unfolding new_index lookup
new_index-IsSound u = record { occurs = λ k. tt; indexed = λ k. inl refl }

member-All : (P : Text → Type 0) (k : Text) (xs : List Text) → All P xs → contains k xs ≡ true → P k
unfolding contains
member-All P k [] h e = cc
member-All P k (x ∷ xs) h e = elim (Text_discrete x k) [
  | yes p ↦ subst P p h.0
  | no p ↦ member-All P k xs h.1 (ground arith)
]

words-IsIndexed :
    (u : Unicode) (doc : Document) (k : Text) → contains k (words u doc) ≡ true → IsIndexed u k
unfolding title_tokens body_tokens
words-IsIndexed u doc k e =
    member-All (IsIndexed u) k (words u doc)
      (All-append (IsIndexed u) (body_tokens u doc) (title_tokens u doc)
        (tokenize-IsIndexed u doc.body_text) (tokenize-IsIndexed u doc.title))
      e

-- AddDocument keeps the index sound: each posting counts one occurrence or more, and only words of
-- letters and digits, two bytes long or more and no stop words, have postings.
pub add_document-IsSound :
    (u : Unicode) (order : List Text) (doc : Document) (idx : Index)
    → IsRangeOf (all_tokens u doc) order
    → IsSound u idx
    → IsSound u (add_document u order doc idx)
add_document-IsSound u order doc idx r v = record { occurs = occurs; indexed = indexed }
  where
    occurs : (k : Text) → All (λ p. pos 1 ≤ℤ p.term_freq) (lookup (add_document u order doc idx) k)
    occurs k = elim (Bool-cases (contains k (words u doc))) [
      | inl e ↦
          rw (lookup-add_document u order doc idx k r, e)
            (All-append _ (lookup idx k) _ (v.occurs k)
              (ground (arith, contains-count k (words u doc)), tt))
      | inr e ↦ rw (lookup-add_document u order doc idx k r, e) (v.occurs k)
    ]

    indexed : (k : Text) → (lookup (add_document u order doc idx) k ≡ []) ⊎ IsIndexed u k
    indexed k = elim (Bool-cases (contains k (words u doc))) [
      | inl e ↦ inr (words-IsIndexed u doc k e)
      | inr e ↦ rw (lookup-add_document u order doc idx k r, e) (v.indexed k)
    ]
