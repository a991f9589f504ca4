-- ===== src/Json/Tests.antt =====
-- A document with a dict in a list, read with hooks that name the key they refuse.
use qwen38_flash_next_nvidia.Prelude.{String, ◌≡◌, refl, true, ok, err, pos}
use qwen38_flash_next_nvidia.Json.{Value, bool, int, str, arr, obj, nil, cons, end, field, has, put}
use qwen38_flash_next_nvidia.Json.Loads.{
  Hooks, object, pair, no_members, str_token, build, dumps, object_pairs,
}

abbrev hooks : Hooks String
hooks = record { duplicate = λ k. k; nonfinite = λ t. t }

abbrev document : Value
document = obj (
    field "tokens" (arr (cons (int (pos 3)) (cons (obj (field "done" (bool true) end)) nil)))
      (field "model" (str "qwen") end))

-- A repeated key is refused, although its values are the same.
twice :
    build hooks (object (pair "a" (str_token "x") (pair "a" (str_token "x") no_members))) ≡ err "a"
unfolding build object_pairs put has
twice = refl

loaded : build hooks (dumps document) ≡ ok document
unfolding build dumps object_pairs put has
loaded = refl
