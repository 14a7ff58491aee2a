-- ===== src/Engine/Result/Tests.antt =====
-- internal/engine/result.go: an object in a sentence, with a bracket inside a string.
use ao_eo.Base.{◌≡◌, ◌↔◌, refl, some, codes, arith}
use ao_eo.Engine.Result.{find_first, find_first_json_object, find_first_json_array}
use ao_eo.Engine.Result.Brackets.{Brackets}
use ao_eo.Engine.Result.Exact.{FirstSpan, find_first_exact}

braces : Brackets b'{' b'}'
braces = record {
  differ = λ e. omega (arith, e);
  opening_plain = λ e. omega (arith, e);
  closing_plain = λ e. omega (arith, e);
}

find_first_exact_example :
    (find_first b'{' b'}' (codes "a{\"}\":1} end}") ≡ some (codes "{\"}\":1}"))
    ↔ FirstSpan b'{' b'}' (codes "a{\"}\":1} end}") (codes "{\"}\":1}")
find_first_exact_example =
    find_first_exact b'{' b'}' (codes "a{\"}\":1} end}") (codes "{\"}\":1}") braces

found_object : find_first_json_object (codes "a{\"}\":1} end}") ≡ some (codes "{\"}\":1}")
unfolding find_first_json_object
found_object = refl

found_array :
    find_first_json_array (codes "x [1,[2],\"]\\\"\"] y") ≡ some (codes "[1,[2],\"]\\\"\"]")
unfolding find_first_json_array
found_array = refl
