-- ===== src/Tests/Witnesses.antt =====
-- The theorems at inputs that meet their hypotheses.
use c_pug.Common.{
  ℕ, zero, suc, sym, ap, ◌^◌, ◌≡◌, ◌<◌, refl, true, false, ◌||◌, none, some, [], ◌∷◌, ◌++◌, Bytes,
  codes, ltb, arith, length, if◌then◌else◌, ◌⊎◌, ◌==◌, same, replicate,
}
use c_pug.Ast.{adopt, node_list_add}
use c_pug.Ast.Children.{adopt-IsValid, adopt_overflows, NodesAreValid, node_list_add-append}
use c_pug.Ast.Children.{IsValid as ChildrenAreValid}
use c_pug.AttributeList.{attribute_list_add}
use c_pug.AttributeList.Growth.{attributes-attribute_list_add, attribute_list_add-IsValid}
use c_pug.AttributeList.Growth.{IsValid as AttributesAreValid, stores as stores_attribute}
use c_pug.Glib.Standin.{standin, standin-Documented}
use c_pug.HtmlTags.Laws.{valid-info, void-nests_nothing}
use c_pug.HtmlTags.Table.{html_tags}
use c_pug.Glib.{pos}
use c_pug.HtmlTags.Queries.{
  info_in, void_type, is_valid_html_tag, get_html_tag_info, is_void_tag, can_tag_nest,
  can_tag_have_attributes, get_tag_type,
}
use c_pug.HtmlTags.Types.{HtmlTag, tag_void}
use c_pug.HtmlTags.VoidTags.{is_void_tag-base}
use c_pug.Renderer.Escape
use c_pug.Renderer.Escape.{escape_html}
use c_pug.Renderer.Escape.RoundTrip.{unescape, unescape-escape_html, escape_html-plain, is_plain}
use c_pug.Tokenizer.Scan.Pieces.{all}
use c_pug.TokenList.{token_list_add, Reallocs}
use c_pug.TokenList.Growth.{stores, tokens-token_list_add, token_list_add-IsValid}
use c_pug.TokenList.Growth.{IsValid as TokensAreValid, token_list_add-wraps}
use c_pug.Tokenizer.File.{tokenize_file}
use c_pug.Tokenizer.Indent.{count_indent_level}
use c_pug.Tokenizer.Indent.Levels.{level_of, count_indent_level-level_of}
use c_pug.Tokenizer.Sound.File.{FromLines, eof_token, tokenize_file_lem}
use c_pug.TokenList.Extends.{IsBounded, IsLimited}
use c_pug.Tokens.{
  Token, TokenList, Attribute, AttributeList, attr_string, AstNode, NodeList, token_tag,
}

abbrev page : Bytes
page = codes "ul#menu\n  li(a='1') x #{y}\n\n\t. "

-- Memory for a thousand million pointers.
abbrev granted : Reallocs
granted n t = ltb n 1000000000

granted-IsLimited : IsLimited granted
granted-IsLimited n t le = ground arith

unescape-escape_html_example :
    unescape 20 (escape_html standin (some (codes "<a href=\"x\">'&"))) ≡ codes "<a href=\"x\">'&"
unescape-escape_html_example =
    unescape-escape_html standin 20 (codes "<a href=\"x\">'&") standin-Documented (omega arith)

escape_html-plain_example :
    all is_plain (escape_html standin (some (codes "<a href=\"x\">'&"))) ≡ true
escape_html-plain_example = escape_html-plain standin (codes "<a href=\"x\">'&") standin-Documented

count_indent_level_example :
    count_indent_level (codes "\t   \tx") ≡ some (level_of (codes "\t   \tx"))
count_indent_level_example = count_indent_level-level_of (codes "\t   \tx")

tokenize_file_example :
    (list : TokenList) × (body : TokenList) × (tokenize_file standin granted page ≡ some list)
    × IsBounded list
    × FromLines standin granted (standin.g_strsplit page (codes "\n") (pos 0)) 0 0 body.tokens
    × (list.tokens ≡ (
        if stores
          (granted body.count (eof_token (length (standin.g_strsplit page (codes "\n") (pos 0)))))
          body
        then body.tokens ++ eof_token (length (standin.g_strsplit page (codes "\n") (pos 0))) ∷ []
        else body.tokens))
tokenize_file_example = tokenize_file_lem standin granted standin-Documented granted-IsLimited page

is_void_tag-base_example :
    Escape.is_void_tag standin (some (codes "base"))
    ≡ ((is_void_tag (some (codes "base")) == 1) || same (codes "base") (codes "base"))
is_void_tag-base_example = is_void_tag-base standin standin-Documented (codes "base")

valid-info_example :
    ((is_valid_html_tag (some (codes "main")) ≡ 0)
      × (get_html_tag_info (some (codes "main")) ≡ none))
    ⊎ ((t : HtmlTag) × (is_valid_html_tag (some (codes "main")) ≡ 1)
        × (get_html_tag_info (some (codes "main")) ≡ some t)
        × (t.name ≡ codes "main"))
valid-info_example = valid-info (codes "main")

is_void_tag-br : is_void_tag (some (codes "br")) ≡ 1
unfolding is_void_tag get_html_tag_info info_in html_tags void_type same
is_void_tag-br = refl

void-nests_nothing_example :
    (can_tag_nest (some (codes "br")) ≡ 0)
    × (can_tag_have_attributes (some (codes "br")) ≡ 1)
    × (get_tag_type (some (codes "br")) ≡ tag_void)
void-nests_nothing_example = void-nests_nothing (some (codes "br")) is_void_tag-br

abbrev token : Token
token = record {
  type = token_tag;
  value = some (codes "p");
  line = 1;
  column = 0;
  depth = 0;
  attributes = none;
}

-- A list whose block is full.
abbrev full_tokens : TokenList
full_tokens = record { tokens = replicate 10 token; count = 10; capacity = 10; slots = 10 }

full_tokens-IsValid : TokensAreValid full_tokens
full_tokens-IsValid = record {
  counted = refl;
  within = omega arith;
  allocated = refl;
  positive = omega arith;
}

tokens-token_list_add_example :
    (token_list_add false full_tokens (some token)).tokens
    ≡ (if stores false full_tokens then full_tokens.tokens ++ token ∷ [] else full_tokens.tokens)
tokens-token_list_add_example = tokens-token_list_add false full_tokens token full_tokens-IsValid

token_list_add-IsValid_example : TokensAreValid (token_list_add true full_tokens (some token))
token_list_add-IsValid_example =
    token_list_add-IsValid true full_tokens token full_tokens-IsValid (omega arith)

abbrev attribute : Attribute
attribute = record { name = some (codes "a"); value = some (codes "1"); type = attr_string }

abbrev full_attributes : AttributeList
full_attributes = record { attributes = replicate 5 attribute; count = 5; capacity = 5; slots = 5 }

full_attributes-IsValid : AttributesAreValid full_attributes
full_attributes-IsValid = record {
  counted = refl;
  within = omega arith;
  allocated = refl;
  positive = omega arith;
}

attributes-attribute_list_add_example :
    (attribute_list_add true full_attributes (some attribute)).attributes ≡ (
      if stores_attribute true full_attributes
      then full_attributes.attributes ++ attribute ∷ []
      else full_attributes.attributes)
attributes-attribute_list_add_example =
    attributes-attribute_list_add true full_attributes attribute full_attributes-IsValid

attribute_list_add-IsValid_example :
    AttributesAreValid (attribute_list_add true full_attributes (some attribute))
attribute_list_add-IsValid_example =
    attribute_list_add-IsValid true full_attributes attribute full_attributes-IsValid (omega arith)

-- A node whose children fill their block.
abbrev full_node : AstNode
full_node = record {
  tag = some (codes "ul");
  text_content = none;
  node_type = token_tag;
  attributes = none;
  classes = none;
  class_count = 0;
  id = none;
  depth = 0;
  line = 0;
  column = 0;
  parent = none;
  children = replicate 5 7;
  children_count = 5;
  children_capacity = 5;
  children_slots = 5;
  is_void = 0;
  is_inline = 0;
  is_block = 0;
}

full_node-IsValid : ChildrenAreValid full_node
full_node-IsValid = record {
  counted = refl;
  within = omega arith;
  allocated = refl;
  positive = omega arith;
}

stored : (adopt true 8 full_node).1 ≡ true
unfolding adopt
stored = refl

adopt-IsValid_example :
    ChildrenAreValid (adopt true 8 full_node).0
    × ((adopt true 8 full_node).0.children ≡ full_node.children ++ 8 ∷ [])
adopt-IsValid_example = adopt-IsValid true 8 full_node full_node-IsValid (omega arith) stored

adopt_overflows_example :
    ((adopt false 8 full_node).1 ≡ false)
    × ((adopt true 9 (adopt false 8 full_node).0).0.children_slots
        < (adopt true 9 (adopt false 8 full_node).0).0.children_count)
adopt_overflows_example = adopt_overflows true 8 9 full_node full_node-IsValid refl (omega arith)

abbrev full_nodes : NodeList
full_nodes = record { nodes = replicate 10 3; count = 10; capacity = 10; slots = 10 }

full_nodes-IsValid : NodesAreValid full_nodes
full_nodes-IsValid = record {
  counted = refl;
  within = omega arith;
  allocated = refl;
  positive = omega arith;
}

node_list_add-append_example :
    NodesAreValid (node_list_add true full_nodes (some 4))
    × ((node_list_add true full_nodes (some 4)).nodes ≡ (
        if true || ltb full_nodes.count full_nodes.capacity
        then full_nodes.nodes ++ 4 ∷ []
        else full_nodes.nodes))
node_list_add-append_example =
    node_list_add-append true full_nodes 4 full_nodes-IsValid (omega arith)

-- A full block of `n` tokens.
unfoldable block : ℕ → TokenList
block n = record { tokens = replicate n token; count = n; capacity = n; slots = n }

length-replicate : (n : ℕ) → length (replicate n token) ≡ n
length-replicate zero = refl
length-replicate (suc n) = ap suc (length-replicate n)

block-IsFull :
    (n : ℕ)
    → 0 < n
    → TokensAreValid (block n) × ((block n).count ≡ (block n).capacity) × ((block n).capacity ≡ n)
unfolding block
block-IsFull n positive = (
  record {
    counted = sym (length-replicate n);
    within = omega arith;
    allocated = refl;
    positive = positive;
  },
  refl,
  refl,
)

token_list_add-wraps_example :
    (token_list_add true (block (2 ^ 31)) (some token)).slots
    < (token_list_add true (block (2 ^ 31)) (some token)).count
token_list_add-wraps_example =
    token_list_add-wraps (block (2 ^ 31)) token (block-IsFull (2 ^ 31) (omega arith)).0
      (block-IsFull (2 ^ 31) (omega arith)).1
      (omega (arith, (block-IsFull (2 ^ 31) (omega arith)).2))
      (omega (arith, (block-IsFull (2 ^ 31) (omega arith)).2))
