-- ===== src/Headers/Classify.antt =====
-- _DropCommonSuffixes and _ClassifyInclude of tools/scripts/cpplint.py.
use jp4agent.Prelude.{
  ◌-◌, Bool, ◌&&◌, ◌||◌, Option, none, some, List, [], ◌∷◌, ◌++◌, ◌==◌, ltb, if◌then◌else◌, Text,
  codes, text_eq, mem_text, ends_with, get_or, length, take,
}
use jp4agent.Regex.{line_start}
use jp4agent.Regex.Notation.{none_of, plus, ◌▹◌}
use jp4agent.Regex.Find.{match}
use jp4agent.Include.{HeaderType, c_sys, cpp_sys, likely_my, possible_my, other}
use jp4agent.Headers.Paths.{split_path, splitext, normpath}

-- _CPP_HEADERS
abbrev cpp_headers : List Text
cpp_headers =
    codes "algobase.h"
    ∷ codes "algo.h"
    ∷ codes "alloc.h"
    ∷ codes "builtinbuf.h"
    ∷ codes "bvector.h"
    ∷ codes "complex.h"
    ∷ codes "defalloc.h"
    ∷ codes "deque.h"
    ∷ codes "editbuf.h"
    ∷ codes "fstream.h"
    ∷ codes "function.h"
    ∷ codes "hash_map"
    ∷ codes "hash_map.h"
    ∷ codes "hash_set"
    ∷ codes "hash_set.h"
    ∷ codes "hashtable.h"
    ∷ codes "heap.h"
    ∷ codes "indstream.h"
    ∷ codes "iomanip.h"
    ∷ codes "iostream.h"
    ∷ codes "istream.h"
    ∷ codes "iterator.h"
    ∷ codes "list.h"
    ∷ codes "map.h"
    ∷ codes "multimap.h"
    ∷ codes "multiset.h"
    ∷ codes "ostream.h"
    ∷ codes "pair.h"
    ∷ codes "parsestream.h"
    ∷ codes "pfstream.h"
    ∷ codes "procbuf.h"
    ∷ codes "pthread_alloc"
    ∷ codes "pthread_alloc.h"
    ∷ codes "rope"
    ∷ codes "rope.h"
    ∷ codes "ropeimpl.h"
    ∷ codes "set.h"
    ∷ codes "slist"
    ∷ codes "slist.h"
    ∷ codes "stack.h"
    ∷ codes "stdiostream.h"
    ∷ codes "stl_alloc.h"
    ∷ codes "stl_relops.h"
    ∷ codes "streambuf.h"
    ∷ codes "stream.h"
    ∷ codes "strfile.h"
    ∷ codes "strstream.h"
    ∷ codes "tempbuf.h"
    ∷ codes "tree.h"
    ∷ codes "type_traits.h"
    ∷ codes "vector.h"
    ∷ codes "algorithm"
    ∷ codes "array"
    ∷ codes "atomic"
    ∷ codes "bitset"
    ∷ codes "chrono"
    ∷ codes "codecvt"
    ∷ codes "complex"
    ∷ codes "condition_variable"
    ∷ codes "deque"
    ∷ codes "exception"
    ∷ codes "forward_list"
    ∷ codes "fstream"
    ∷ codes "functional"
    ∷ codes "future"
    ∷ codes "initializer_list"
    ∷ codes "iomanip"
    ∷ codes "ios"
    ∷ codes "iosfwd"
    ∷ codes "iostream"
    ∷ codes "istream"
    ∷ codes "iterator"
    ∷ codes "limits"
    ∷ codes "list"
    ∷ codes "locale"
    ∷ codes "map"
    ∷ codes "memory"
    ∷ codes "mutex"
    ∷ codes "new"
    ∷ codes "numeric"
    ∷ codes "ostream"
    ∷ codes "queue"
    ∷ codes "random"
    ∷ codes "ratio"
    ∷ codes "regex"
    ∷ codes "scoped_allocator"
    ∷ codes "set"
    ∷ codes "sstream"
    ∷ codes "stack"
    ∷ codes "stdexcept"
    ∷ codes "streambuf"
    ∷ codes "string"
    ∷ codes "strstream"
    ∷ codes "system_error"
    ∷ codes "thread"
    ∷ codes "tuple"
    ∷ codes "typeindex"
    ∷ codes "typeinfo"
    ∷ codes "type_traits"
    ∷ codes "unordered_map"
    ∷ codes "unordered_set"
    ∷ codes "utility"
    ∷ codes "valarray"
    ∷ codes "vector"
    ∷ codes "cassert"
    ∷ codes "ccomplex"
    ∷ codes "cctype"
    ∷ codes "cerrno"
    ∷ codes "cfenv"
    ∷ codes "cfloat"
    ∷ codes "cinttypes"
    ∷ codes "ciso646"
    ∷ codes "climits"
    ∷ codes "clocale"
    ∷ codes "cmath"
    ∷ codes "csetjmp"
    ∷ codes "csignal"
    ∷ codes "cstdalign"
    ∷ codes "cstdarg"
    ∷ codes "cstdbool"
    ∷ codes "cstddef"
    ∷ codes "cstdint"
    ∷ codes "cstdio"
    ∷ codes "cstdlib"
    ∷ codes "cstring"
    ∷ codes "ctgmath"
    ∷ codes "ctime"
    ∷ codes "cuchar"
    ∷ codes "cwchar"
    ∷ codes "cwctype"
    ∷ []

abbrev common_suffixes : List Text
common_suffixes =
    codes "test.cc"
    ∷ codes "regtest.cc"
    ∷ codes "unittest.cc"
    ∷ codes "inl.h"
    ∷ codes "impl.h"
    ∷ codes "internal.h"
    ∷ []

-- The suffix is there, behind a - or _.
has_suffix : Text → Text → Bool
has_suffix filename suffix =
    let before = get_or filename (length filename - length suffix - 1) 0 in
    ends_with filename suffix
    && ltb (length suffix) (length filename)
    && (before == b'-' || before == b'_')

drop_suffix : List Text → Text → Text
unfolding has_suffix
drop_suffix [] filename = (splitext filename).0
drop_suffix (suffix ∷ suffixes) filename =
    if has_suffix filename suffix
    then take (length filename - length suffix - 1) filename
    else drop_suffix suffixes filename

-- _DropCommonSuffixes
unfoldable pub drop_common_suffixes : Text → Text
unfolding drop_suffix
drop_common_suffixes filename = drop_suffix common_suffixes filename

-- _RE_FIRST_COMPONENT: ^[^-_.]+
first_component : Text → Option Text
first_component s = elim (match (line_start ▹ plus (none_of "-_.")) s) [
  | none ↦ none
  | some m ↦ some m.text
]

share_first_component : Text → Text → Bool
unfolding first_component
share_first_component target_base include_base = elim (first_component target_base) [
  | none ↦ Bool.false
  | some a ↦ elim (first_component include_base) [ none ↦ Bool.false | some b ↦ text_eq a b ]
]

-- _ClassifyInclude, for a file of the name `repository_name`
unfoldable pub classify_include : Text → Text → Bool → HeaderType
unfolding share_first_component
classify_include name include is_system =
    let (target_dir, target_base) = split_path (drop_common_suffixes name) in
    let (include_dir, include_base) = split_path (drop_common_suffixes include) in
    if is_system
    then (if mem_text include cpp_headers then cpp_sys else c_sys)
    else if text_eq target_base include_base
        && (text_eq include_dir target_dir
            || text_eq include_dir (normpath (target_dir ++ codes "/../public")))
    then likely_my
    else if share_first_component target_base include_base
    then possible_my
    else other
