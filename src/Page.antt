-- ===== src/Page.antt =====
-- `parseHTML` of internal/crawler/worker.go: the walk over the tree that the package
-- golang.org/x/net/html builds. The tree is a data type here, and the parser a parameter.
pub mod Reading
mod Examples
use google_in_a_day_crawler.Base.{
  ℕ, Bool, true, false, ◌||◌, ite, List, [], ◌∷◌, ◌++◌, ite, Option, none, some, Text,
  Text_discrete, codes, trim, if◌then◌else◌,
}
use google_in_a_day_crawler.Tokens.{Unicode}

-- The nodes that the walk tells apart: elements with tag and attributes, text, and all others (the
-- document, comments, the doctype).
mutual
  pub data Node : Type 0 where
    element : Text → List (Text × Text) → Nodes → Node
    text : Text → Nodes → Node
    other : Nodes → Node

  pub data Nodes : Type 0 where
    nil : Nodes
    cons : Node → Nodes → Nodes

-- The variables that `walk` captures.
pub record Walk : Type 0 where
  pub in_title : Bool
  pub title_buf : Text
  pub links : List Text
  pub text_buf : Text

pub is_tag : Text → Text → Bool
is_tag tag name = ite (Text_discrete tag name) true false

-- `script`, `style` and `noscript`, whose subtrees are left out.
pub is_skipped : Text → Bool
unfolding is_tag
is_skipped tag =
    is_tag tag (codes "script") || is_tag tag (codes "style") || is_tag tag (codes "noscript")

pub hrefs : List (Text × Text) → List Text
hrefs [] = []
hrefs ((key, val) ∷ attrs) =
    ite (Text_discrete key (codes "href")) (val ∷ hrefs attrs) (hrefs attrs)

-- What `walk` does on an element before its children.
pub open_element : Text → List (Text × Text) → Walk → Walk
unfolding is_tag hrefs
open_element tag attrs w =
    if is_tag tag (codes "title")
    then record w { in_title = true }
    else if is_tag tag (codes "a")
    then record w { links = w.links ++ hrefs attrs }
    else w

-- What it does behind them.
pub close_element : Text → Walk → Walk
unfolding is_tag
close_element tag w = if is_tag tag (codes "title") then record w { in_title = false } else w

pub piece : Text → Text
piece [] = []
piece (c ∷ s) = (c ∷ s) ++ b' ' ∷ []

pub read_text : Unicode → Text → Walk → Walk
unfolding piece
read_text u s w = record w {
  title_buf = if w.in_title then w.title_buf ++ s else w.title_buf;
  text_buf = w.text_buf ++ piece (trim u.is_space s);
}

mutual
  pub walk : Unicode → Node → Walk → Walk
  walk u (element tag attrs children) w =
      let inside = close_element tag (walk_all u children (open_element tag attrs w)) in
      if is_skipped tag then w else inside
  walk u (text s children) w = walk_all u children (read_text u s w)
  walk u (other children) w = walk_all u children w

  pub walk_all : Unicode → Nodes → Walk → Walk
  walk_all u nil w = w
  walk_all u (cons n ns) w = walk_all u ns (walk u n w)

pub start_walk : Walk
start_walk = record { in_title = false; title_buf = []; links = []; text_buf = [] }

pub record Parsed : Type 0 where
  pub title : Text
  pub links : List Text
  pub body_text : Text

-- `parse` is `html.Parse`.
pub parse_html : Unicode → (Text → Option Node) → Text → Parsed
unfolding start_walk
parse_html u parse body = elim (parse body) [
  | none ↦ record { title = []; links = []; body_text = [] }
  | some doc ↦
      let w = walk u doc start_walk in
      record {
        title = trim u.is_space w.title_buf;
        links = w.links;
        body_text = trim u.is_space w.text_buf;
      }
]
