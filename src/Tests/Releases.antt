-- ===== src/Tests/Releases.antt =====
-- The lists at the end of their lives.
use c_pug.AttributeList.Free as Attributes
use c_pug.AttributeList.Free.{attribute_list_free, attribute_list_free-owned, owned}
use c_pug.AttributeList.Growth as Attributes_growth
use c_pug.Common.{◌≡◌, refl, none, some, [], ◌∷◌, codes, arith, times}
use c_pug.Tests.Chains.{list}
use c_pug.TokenList.Free.{
  token_value, same_token, token_list_free, tokens_owned, token_list_free-owned,
}
use c_pug.TokenList.Growth.{IsValid}
use c_pug.Tokens.{AttributeList, attr_string, attr_boolean}

-- `a='1' b`
abbrev attributes : AttributeList
attributes = record {
  attributes =
      record { name = some (codes "a"); value = some (codes "1"); type = attr_string }
      ∷ record { name = some (codes "b"); value = none; type = attr_boolean }
      ∷ [];
  count = 2;
  capacity = 5;
  slots = 5;
}

attributes-IsValid : Attributes_growth.IsValid attributes
attributes-IsValid = record {
  counted = refl;
  within = omega arith;
  allocated = refl;
  positive = omega arith;
}

attribute_list_free-owned_example :
    times Attributes.same (Attributes.attribute_value 1) (attribute_list_free (some attributes))
    ≡ owned attributes (Attributes.attribute_value 1)
attribute_list_free-owned_example =
    attribute_list_free-owned attributes (Attributes.attribute_value 1) attributes-IsValid

list-IsValid : IsValid list
list-IsValid = record {
  counted = refl;
  within = omega arith;
  allocated = refl;
  positive = omega arith;
}

token_list_free-owned_example :
    times same_token (token_value 2) (token_list_free (some list))
    ≡ tokens_owned list (token_value 2)
token_list_free-owned_example =
    token_list_free-owned list (token_value 2) list-IsValid (tt, (tt, (tt, (tt, tt))))
