-- ===== src/Tests/Endless.antt =====
-- A list of one tag whose end of the file is lost.
use c_pug.Common.{ℕ, zero, suc, ◌≡◌, ◌≢◌, refl, false, none, some, [], ◌∷◌, codes, get_elem?, arith}
use c_pug.Common.Run.{ok}
use c_pug.Glib.Standin.{standin}
use c_pug.Parser.Endless.{pug_loop-endless}
use c_pug.Parser.Node.{is_eof}
use c_pug.Parser.Tree.{pug_loop}
use c_pug.Tests.Chains.{memory}
use c_pug.Tokens.{token_tag, Token, TokenList, ParserContext}

abbrev alone : TokenList
alone = record {
  tokens =
      record {
        type = token_tag;
        value = some (codes "p");
        line = 1;
        column = 0;
        depth = 0;
        attributes = none;
      }
      ∷ [];
  count = 1;
  capacity = 1;
  slots = 1;
}

abbrev context : ParserContext
context = record {
  tokens = some alone;
  current_token = 0;
  current_depth = 0;
  current_parent = none;
  root_node = none;
  use_tabs = 0;
  tab_size = 2;
  strict_mode = 0;
}

alone-endless :
    (i : ℕ) (t : Token) → get_elem? alone.tokens i ≡ some t → is_eof standin memory t.type ≡ false
unfolding is_eof
alone-endless zero t e = ground arith
alone-endless (suc i) t e = cc

pug_loop-endless_example : pug_loop standin memory 1000 1000 context [] ≢ ok (context, [])
pug_loop-endless_example =
    pug_loop-endless standin memory alone alone-endless 1000 1000 context [] (context, []) refl
