-- ===== src/Page/Reading.antt =====
-- What `parseHTML` (internal/crawler/worker.go) collects, against readings of the tree that carry
-- no state.
use google_in_a_day_crawler.Base.{
  ap, inr, if_neg, ◌∙◌, inl, Option-cases, sym, Text_discrete, ◌⊎◌, true, false, List, [], ◌++◌,
  Option, none, some, Text, codes, trim, if◌then◌else◌, ◌≡◌, arith, append_assoc, append-nil,
}
use google_in_a_day_crawler.Tokens.{Unicode}
use google_in_a_day_crawler.Page.{
  start_walk, Node, element, text, other, Nodes, nil, cons, Walk, is_tag, is_skipped, hrefs, piece,
  walk, walk_all, open_element, close_element, read_text, parse_html,
}

-- The links and the visible text of a tree in document order, without the skipped subtrees.
mutual
  pub links_of : Node → List Text
  links_of (element tag attrs children) =
      let inside = links_of_all children in
      let own = if is_tag tag (codes "a") then hrefs attrs else [] in
      if is_skipped tag then [] else own ++ inside
  links_of (text s children) = links_of_all children
  links_of (other children) = links_of_all children

  pub links_of_all : Nodes → List Text
  links_of_all nil = []
  links_of_all (cons n ns) = links_of n ++ links_of_all ns

mutual
  pub text_of : Unicode → Node → Text
  text_of u (element tag attrs children) =
      let inside = text_of_all u children in if is_skipped tag then [] else inside
  text_of u (text s children) = piece (trim u.is_space s) ++ text_of_all u children
  text_of u (other children) = text_of_all u children

  pub text_of_all : Unicode → Nodes → Text
  text_of_all u nil = []
  text_of_all u (cons n ns) = text_of u n ++ text_of_all u ns

tag_eq : (tag name : Text) → is_tag tag name ≡ true → tag ≡ name
unfolding is_tag
tag_eq tag name h = ground arith

title_not_a : codes "title" ≡ codes "a" → ⊥
title_not_a e = cc

title-ne-a : (tag : Text) → is_tag tag (codes "title") ≡ true → is_tag tag (codes "a") ≡ false
unfolding is_tag
title-ne-a tag h = elim (Text_discrete tag (codes "a")) [
  | yes e ↦ absurd (title_not_a (sym (tag_eq tag (codes "title") h) ∙ e))
  | no e ↦ if_neg _ e true false
]

close_element-links : (tag : Text) (w : Walk) → (close_element tag w).links ≡ w.links
unfolding close_element
close_element-links tag w = ground arith

open_element-links :
    (tag : Text) (attrs : List (Text × Text)) (w : Walk)
    → (open_element tag attrs w).links
      ≡ w.links ++ (if is_tag tag (codes "a") then hrefs attrs else [])
unfolding open_element
open_element-links tag attrs w = ground (arith, title-ne-a tag, append-nil w.links)

close_element-text_buf : (tag : Text) (w : Walk) → (close_element tag w).text_buf ≡ w.text_buf
unfolding close_element
close_element-text_buf tag w = ground arith

open_element-text_buf :
    (tag : Text) (attrs : List (Text × Text)) (w : Walk)
    → (open_element tag attrs w).text_buf ≡ w.text_buf
unfolding open_element
open_element-text_buf tag attrs w = ground arith

mutual
  unfolding walk walk_all links_of links_of_all read_text

  walk-links : (u : Unicode) (n : Node) (w : Walk) → (walk u n w).links ≡ w.links ++ links_of n
  walk-links u (element tag attrs children) w = ground (
    arith,
    close_element-links tag (walk_all u children (open_element tag attrs w)),
    walk_all-links u children (open_element tag attrs w),
    open_element-links tag attrs w,
    append-nil w.links,
    append_assoc w.links (if is_tag tag (codes "a") then hrefs attrs else [])
        (links_of_all children),
  )
  walk-links u (text s children) w = walk_all-links u children (read_text u s w)
  walk-links u (other children) w = walk_all-links u children w

  walk_all-links :
      (u : Unicode) (ns : Nodes) (w : Walk) → (walk_all u ns w).links ≡ w.links ++ links_of_all ns
  walk_all-links u nil w = rw append-nil
  walk_all-links u (cons n ns) w =
      rw (walk_all-links u ns (walk u n w), walk-links u n w, append_assoc)

mutual
  unfolding walk walk_all text_of text_of_all read_text

  walk-text :
      (u : Unicode) (n : Node) (w : Walk) → (walk u n w).text_buf ≡ w.text_buf ++ text_of u n
  walk-text u (element tag attrs children) w = ground (
    arith,
    close_element-text_buf tag (walk_all u children (open_element tag attrs w)),
    walk_all-text u children (open_element tag attrs w),
    open_element-text_buf tag attrs w,
    append-nil w.text_buf,
  )
  walk-text u (text s children) w =
      rw (walk_all-text u children (read_text u s w)) (append_assoc w.text_buf _ _)
  walk-text u (other children) w = walk_all-text u children w

  walk_all-text :
      (u : Unicode) (ns : Nodes) (w : Walk)
      → (walk_all u ns w).text_buf ≡ w.text_buf ++ text_of_all u ns
  walk_all-text u nil w = rw append-nil
  walk_all-text u (cons n ns) w =
      rw (walk_all-text u ns (walk u n w), walk-text u n w, append_assoc)

-- Of a page that parses, `parseHTML` returns the values of the `href` attributes of its `a` elements
-- and its trimmed pieces of text, both in document order and without all that stands below a
-- `script`, `style` or `noscript` element; of any other page it returns nothing.
pub parse_html_reads :
    (u : Unicode) (parse : Text → Option Node) (body : Text)
    → let page = parse_html u parse body in
      ((parse body ≡ none) × (page.links ≡ []) × (page.body_text ≡ []) × (page.title ≡ []))
      ⊎ ((doc : Node) × (parse body ≡ some doc)
          × (page.links ≡ links_of doc)
          × (page.body_text ≡ trim u.is_space (text_of u doc)))
unfolding parse_html
parse_html_reads u parse body = elim (Option-cases (parse body)) [
  | inl e ↦ inl (e, rw (e, parse_html), rw (e, parse_html), rw (e, parse_html))
  | inr (doc, e) ↦ inr (
    doc,
    e,
    rw (e, parse_html) (walk-links u doc start_walk),
    rw (e, parse_html) (ap (trim u.is_space) (walk-text u doc start_walk)),
  )
]
