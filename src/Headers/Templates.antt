-- ===== src/Headers/Templates.antt =====
-- _HEADERS_CONTAINING_TEMPLATES and _HEADERS_MAYBE_TEMPLATES of tools/scripts/cpplint.py.
use jp4agent.Prelude.{List, [], ◌∷◌, Text, codes}

abbrev pub headers_containing_templates : List (Text × List Text)
headers_containing_templates =
    (codes "<deque>", codes "deque" ∷ [])
    ∷ (
      codes "<functional>",
      codes "unary_function"
          ∷ codes "binary_function"
          ∷ codes "plus"
          ∷ codes "minus"
          ∷ codes "multiplies"
          ∷ codes "divides"
          ∷ codes "modulus"
          ∷ codes "negate"
          ∷ codes "equal_to"
          ∷ codes "not_equal_to"
          ∷ codes "greater"
          ∷ codes "less"
          ∷ codes "greater_equal"
          ∷ codes "less_equal"
          ∷ codes "logical_and"
          ∷ codes "logical_or"
          ∷ codes "logical_not"
          ∷ codes "unary_negate"
          ∷ codes "not1"
          ∷ codes "binary_negate"
          ∷ codes "not2"
          ∷ codes "bind1st"
          ∷ codes "bind2nd"
          ∷ codes "pointer_to_unary_function"
          ∷ codes "pointer_to_binary_function"
          ∷ codes "ptr_fun"
          ∷ codes "mem_fun_t"
          ∷ codes "mem_fun"
          ∷ codes "mem_fun1_t"
          ∷ codes "mem_fun1_ref_t"
          ∷ codes "mem_fun_ref_t"
          ∷ codes "const_mem_fun_t"
          ∷ codes "const_mem_fun1_t"
          ∷ codes "const_mem_fun_ref_t"
          ∷ codes "const_mem_fun1_ref_t"
          ∷ codes "mem_fun_ref"
          ∷ [],
    )
    ∷ (codes "<limits>", codes "numeric_limits" ∷ [])
    ∷ (codes "<list>", codes "list" ∷ [])
    ∷ (codes "<map>", codes "map" ∷ codes "multimap" ∷ [])
    ∷ (
      codes "<memory>",
      codes "allocator"
          ∷ codes "make_shared"
          ∷ codes "make_unique"
          ∷ codes "shared_ptr"
          ∷ codes "unique_ptr"
          ∷ codes "weak_ptr"
          ∷ [],
    )
    ∷ (codes "<queue>", codes "queue" ∷ codes "priority_queue" ∷ [])
    ∷ (codes "<set>", codes "set" ∷ codes "multiset" ∷ [])
    ∷ (codes "<stack>", codes "stack" ∷ [])
    ∷ (codes "<string>", codes "char_traits" ∷ codes "basic_string" ∷ [])
    ∷ (codes "<tuple>", codes "tuple" ∷ [])
    ∷ (codes "<unordered_map>", codes "unordered_map" ∷ codes "unordered_multimap" ∷ [])
    ∷ (codes "<unordered_set>", codes "unordered_set" ∷ codes "unordered_multiset" ∷ [])
    ∷ (codes "<utility>", codes "pair" ∷ [])
    ∷ (codes "<vector>", codes "vector" ∷ [])
    ∷ (codes "<hash_map>", codes "hash_map" ∷ codes "hash_multimap" ∷ [])
    ∷ (codes "<hash_set>", codes "hash_set" ∷ codes "hash_multiset" ∷ [])
    ∷ (codes "<slist>", codes "slist" ∷ [])
    ∷ []

abbrev pub headers_maybe_templates : List (Text × List Text)
headers_maybe_templates =
    (
      codes "<algorithm>",
      codes "copy"
          ∷ codes "max"
          ∷ codes "min"
          ∷ codes "min_element"
          ∷ codes "sort"
          ∷ codes "transform"
          ∷ [],
    )
    ∷ (codes "<utility>", codes "forward" ∷ codes "make_pair" ∷ codes "move" ∷ codes "swap" ∷ [])
    ∷ []
