-- ===== src/Tests/Attributes.antt =====
-- The theorem on written attributes at a token with two of them.
use c_pug.Common.{
  true, none, some, [], ◌∷◌, ◌++◌, ◌≡◌, refl, List, codes, map, inl, inr, arith, All,
}
use c_pug.AttributeList.{attribute_list_create}
use c_pug.AttributeList.Growth.{IsValid, create-IsValid}
use c_pug.Glib.Standin.{standin, standin-Documented}
use c_pug.Parser.Attributes.{is_attribute, attributes_of, parse_attributes}
use c_pug.Parser.Attributes.Written.{Written, IsWritten, attribute}
use c_pug.Parser.Attributes.RoundTrip.{written, HasRoom, parse_attributes-written}
use c_pug.Parser.Context.{parser_get_current_token, parser_advance_token}
use c_pug.Tests.Pages.{all_granted}
use c_pug.Tokens.{Token, AstNode, AttributeList, ParserContext, token_tag, token_attribute}

-- `href="/a=b" ,id = 'x y' `
abbrev link : List Written
link =
    record {
      initial = b'h';
      others = codes "ref";
      quote = b'"';
      value = codes "/a=b";
      before = [];
      behind = [];
      ahead = [];
      after = codes " ";
    }
    ∷ record {
      initial = b'i';
      others = codes "d";
      quote = 39;
      value = codes "x y";
      before = [];
      behind = codes " ";
      ahead = codes " ";
      after = codes " ";
    }
    ∷ []

link-text : written link ≡ codes "href=\"/a=b\" ,id = 'x y' "
link-text = refl

link-IsWritten : All IsWritten link
link-IsWritten = (
  record { named = ground arith; whole = ground arith; quotes = inl refl; blanks = ground arith },
  (
    record { named = ground arith; whole = ground arith; quotes = inr refl; blanks = ground arith },
    tt,
  ),
)

abbrev token : Token
token = record {
  type = token_attribute;
  value = some (written link);
  line = 1;
  column = 3;
  depth = 0;
  attributes = none;
}

abbrev context : ParserContext
context = record {
  tokens = some (record { tokens = token ∷ []; count = 1; capacity = 10; slots = 10 });
  current_token = 0;
  current_depth = 0;
  current_parent = none;
  root_node = none;
  use_tabs = 0;
  tab_size = 2;
  strict_mode = 0;
}

abbrev node : AstNode
node = record {
  tag = some (codes "a");
  text_content = none;
  node_type = token_tag;
  attributes = none;
  classes = none;
  class_count = 0;
  id = none;
  depth = 0;
  line = 1;
  column = 0;
  parent = none;
  children = [];
  children_count = 0;
  children_capacity = 5;
  children_slots = 5;
  is_void = 0;
  is_inline = 0;
  is_block = 0;
}

at_token : parser_get_current_token context ≡ some token
unfolding parser_get_current_token
at_token = refl

token-is_attribute : is_attribute token_attribute ≡ true
unfolding is_attribute
token-is_attribute = refl

node-HasRoom : HasRoom 2 (attributes_of standin all_granted node)
unfolding attribute_list_create
node-HasRoom = record { valid = create-IsValid; small = omega arith; few = omega arith }

parse_attributes-written_example :
    (l : AttributeList) × (parse_attributes standin all_granted context node
      ≡ (record node { attributes = some l }, parser_advance_token context))
    × IsValid l
    × (l.attributes ≡ (attributes_of standin all_granted node).attributes ++ map attribute link)
parse_attributes-written_example =
    parse_attributes-written standin all_granted context node link token standin-Documented
      (λ left. refl) (λ left. refl) at_token token-is_attribute refl link-IsWritten node-HasRoom
