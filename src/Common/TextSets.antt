-- ===== src/Common/TextSets.antt =====
-- Predicates on texts as an instance of `StringSets`: its laws can be met.
use orin_device_system.Common.{Bool, true, false, Text, Text_discrete, refl, ite}
use orin_device_system.Common.Sets.{StringSets}

instance abbrev pub text_sets : StringSets
text_sets = record {
  StringSet = Text → Bool;
  no_strings = λ x. false;
  insert_string = λ y s x. ite (Text_discrete x y) true (s x);
  has_string = λ x s. s x;
  has_string-empty = λ x. refl;
  has_string-insert = λ x y s. refl;
}
