-- ===== src/Page/Examples.antt =====
-- `parseHTML` (internal/crawler/worker.go) on a concrete tree.
use google_in_a_day_crawler.Base.{
  Text_discrete, ◌≡◌, refl, [], ◌∷◌, Text, codes, some, none, Option, ◌⊎◌, trim,
}
use google_in_a_day_crawler.Tokens.Ascii.{ascii}
use google_in_a_day_crawler.Page.{
  start_walk, read_text, is_tag, hrefs, is_skipped, close_element, open_element, walk, Node,
  element, text, other, nil, cons, parse_html,
}
use google_in_a_day_crawler.Page.Reading.{links_of, text_of, parse_html_reads}

-- A page with a title, a link and a script that holds a link.
abbrev tree : Node
tree = other (
    cons (element (codes "title") [] (cons (text (codes " Home ") nil) nil)) (
      cons (element (codes "a") ((codes "href", codes "/a") ∷ []) (cons (text (codes "A") nil) nil))
        (cons
          (element (codes "script") []
            (cons (element (codes "a") ((codes "href", codes "/b") ∷ []) nil) nil))
          nil)))

abbrev parse_any : Text → Option Node
parse_any body = some tree

links_found : (parse_html ascii parse_any []).links ≡ codes "/a" ∷ []
unfolding parse_html walk open_element close_element is_skipped hrefs is_tag read_text start_walk
    Text_discrete
links_found = refl

title_found : (parse_html ascii parse_any []).title ≡ codes "Home"
unfolding parse_html walk open_element close_element is_skipped hrefs is_tag read_text start_walk
    Text_discrete trim
title_found = refl

parse_html_reads_example :
    ((parse_any [] ≡ none)
      × ((parse_html ascii parse_any []).links ≡ [])
      × ((parse_html ascii parse_any []).body_text ≡ [])
      × ((parse_html ascii parse_any []).title ≡ []))
    ⊎ ((doc : Node) × (parse_any [] ≡ some doc)
        × ((parse_html ascii parse_any []).links ≡ links_of doc)
        × ((parse_html ascii parse_any []).body_text ≡ trim ascii.is_space (text_of ascii doc)))
parse_html_reads_example = parse_html_reads ascii parse_any []
