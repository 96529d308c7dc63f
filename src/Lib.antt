-- ===== src/Lib.antt =====
-- c-pug turns a Pug template into HTML. This library models the program's own C code and proves
-- what makes its parts correct.
--
-- The program is a pipeline, `process_pug_file` of include/c-pug.h: the tokenizer cuts the text
-- into tokens, line by line; the parser reads the tokens through a context with a current token
-- and builds a tree of nodes; the renderer writes the tree as HTML. Tokens, attributes and nodes
-- are kept in arrays that double when they are full. A table of HTML tags stands by itself.
--
--   Common          Booleans, lists, bytes and runs over the native numbers
--   Glib            GLib's string functions, a parameter, with the laws that the code relies on;
--                   Glib/Standin is a concrete set of functions that meets them
--   Console         calls that print, with their arguments
--   Tokens          include/pug/pug_tokens.h: the structures as records
--   TokenList       include/pug/pug_token_list.h: token_list_create, token_list_add,
--                   token_list_free (Free)
--   AttributeList   include/pug/pug_attribute_list.h: attribute_list_create, attribute_list_add,
--                   attribute_list_free (Free)
--   Ast             include/pug/pug_ast.h: ast_node_create, ast_node_add_child (adopt is what it
--                   does to the parent), node_list_create, node_list_add; Free is
--                   ast_node_free and node_list_free
--   Tokenizer       include/pug/pug_tokenizer.h: Indent is count_indent_level and skip_whitespace,
--                   Line the branches of tokenize_line, File tokenize_file; Sound is about the
--                   lines, depths and values of the tokens, with the first token of each line
--                   (Sound/Opening), Columns about their columns
--   Parser          include/pug/pug_parser.h: Context, Attributes (parse_attributes and
--                   parse_classes), Node (parse_node), Tree (parse_pug) and Free
--                   (parser_context_free). Indented says where the nodes hang and which tokens they
--                   stand for (Indented/Heads), Preorder in which order a walk over the tree meets
--                   them, Attributes/RoundTrip what is read from written attributes
--   Debug           include/pug/pug_bug.h: token_type_to_string; Print is token_list_print and
--                   ast_node_print, Lines the rows of a tree
--   Renderer        include/pug/pug_renderer.h: Escape (escape_html, is_void_tag), Pieces
--                   (indentation, attributes, classes) and Node (render_node, render_ast); Spec
--                   is the HTML of a tree as plain functions, which Refines and Grown compare
--   Process         include/c-pug.h: process_pug_file (render_free is in Main/Events); Rendered is
--                   what it returns for any text, Outlined the shape of the result
--   HtmlTags        include/c-pug-base.h: the table, the functions that ask it (Queries) and
--                   print_all_tags_by_category (Printing), print_tag_info (Info)
--   Main            src/main.c: Examples are the five examples of regular expressions, Program is
--                   main, Events what it does in order; Lre is the library of regular expressions, a
--                   parameter, Callbacks what it calls back
--   Tests           runs of the whole pipeline, and the theorems at concrete inputs
--
-- State is passed on: an operation takes a record and returns the new one. A string is the list
-- of its bytes before the terminating 0. `&line[pos]` is the rest of the line, with `pos` beside
-- it. Nodes stand on a heap, a list in the order of allocation; a pointer is a place in it, NULL
-- is `none`. An `unsigned int` wraps at 2 ^ 32 where it is the count, the capacity or the depth
-- of a list, a node or the printed tree. The places in a line, the level that count_indent_level
-- finds, the level of the brackets and the counters of the statistics are unbounded, and so
-- differ from the code for lines or lists of 2 ^ 31 bytes or tokens and more. Each array has a
-- field `slots`, the places of the block that the allocator gave, beside the capacity that the
-- code believes; the blocks that g_new gives at first are larger in the code, as it takes the
-- size of the structures and not of the pointers, which the model does not count on. Whether an
-- allocation succeeds is an argument: the parser asks it with the place in the work that sets the
-- call apart from all others, the tokenizer with the number of tokens and the token. So each
-- theorem on a run covers every pattern of failure that it does not exclude by name. `g_new` and
-- the buffers of GLib never fail: GLib ends the program. A run that writes through NULL is
-- `fault`.
--
-- The loops that are not structural are on fuel. count_indent_level has the length of the line and
-- one more; the loops of tokenize_line have the same, as each turn reads a byte; parse_pug
-- and parse_node have the number of tokens and one more, as each turn goes a token further; the
-- climb to a parent has the number of nodes, as a parent stands before its children on the heap.
-- The renderer, ast_node_print and ast_node_free have the number of nodes, and the loop over the
-- variables of a template the length of the text and one more. These bounds are enough where the
-- tokens end with the end of the file; without it the loop of parse_pug has no end in the code.
--
-- What the program prints is a list of calls, each with its format and its arguments; the formats
-- are not expanded.
--
-- A function that frees memory gives the list of the blocks that it frees, each block named by the
-- structure that it is a part of.
--
-- Not modelled: the lines that the tokenizer prints on its way, and what is printed under DEBUG;
-- and include/bellard, a copy of the regular expression library of QuickJS.
pub mod Common
pub mod Glib
pub mod Console
pub mod Tokens
pub mod TokenList
pub mod AttributeList
pub mod Ast
pub mod Tokenizer
pub mod Parser
pub mod Debug
pub mod Renderer
pub mod Process
pub mod HtmlTags
pub mod Main
pub mod Tests
