-- ===== src/Response/Headers.antt =====
-- The look-ups of `PyHeaderMap` in src/response.rs against each other.
use lkrequest_py.Prelude.{
  new_err, ok, PyResult, key_error, ◌≡◌, refl, String, List, [], ◌∷◌, Option, none, some, is_some,
  arith, key_error, ok, ap, ◌∙◌, sym,
}
use lkrequest_py.Response.{
  Entries, to_ascii_lowercase, find, getitem, get, get_all, contains, or_else,
}

abbrev pub first : List String → Option String
first [] = none
first (v ∷ vs) = some v

find-first : (name : String) (es : Entries) → find name es ≡ first (get_all name es)
unfolding find get_all
find-first name [] = refl
find-first name ((k, v) ∷ es) = ground (arith, find-first name es)

contains-find : (name : String) (es : Entries) → contains name es ≡ is_some (find name es)
unfolding find contains
contains-find name [] = refl
contains-find name ((k, v) ∷ es) = ground (arith, contains-find name es)

-- What a look-up that must succeed makes of the value found.
abbrev pub or_key_error : String → Option String → PyResult String
or_key_error name none = new_err key_error name
or_key_error name (some v) = ok v

-- Each look-up by the values of `get_all`.
lookups_agree :
    (name : String) (default : Option String) (es : Entries)
    → (get name default es ≡ or_else (first (get_all name es)) default)
      × (contains name es ≡ is_some (first (get_all name es)))
      × (getitem name es ≡ or_key_error name (first (get_all name es)))
unfolding get getitem
lookups_agree name default es = (
  ap (λ o. or_else o default) (find-first name es),
  contains-find name es ∙ ap is_some (find-first name es),
  ground (arith, find-first name es),
)

get_all-lower :
    (a b : String) (es : Entries)
    → to_ascii_lowercase a ≡ to_ascii_lowercase b
    → get_all a es ≡ get_all b es
unfolding get_all
get_all-lower a b [] h = refl
get_all-lower a b ((k, v) ∷ es) h = rw (h, get_all-lower a b es h) refl

lookups_ignore_case :
    (a b : String) (default : Option String) (es : Entries)
    → to_ascii_lowercase a ≡ to_ascii_lowercase b
    → (get_all a es ≡ get_all b es)
      × (get a default es ≡ get b default es)
      × (contains a es ≡ contains b es)
lookups_ignore_case a b default es h =
    let all = get_all-lower a b es h in
    let (g, c, _) = lookups_agree a default es in
    let (g', c', _) = lookups_agree b default es in
    (
      all,
      g ∙ ap (λ vs. or_else (first vs) default) all ∙ sym g',
      c ∙ ap (λ vs. is_some (first vs)) all ∙ sym c',
    )

-- The look-ups of a name agree: `get` gives the first of the values of `get_all`, or the default
-- where there is none; the name is contained exactly where there is one; and `__getitem__` gives that
-- first value, or raises `KeyError` with the name where there is none. And a name that differs from it
-- in the case of ASCII letters only has the same values, and the same answer of `get` and of the test.
pub lookups_consistent :
    (a b : String) (default : Option String) (es : Entries)
    → to_ascii_lowercase a ≡ to_ascii_lowercase b
    → ((get a default es ≡ or_else (first (get_all a es)) default)
        × (contains a es ≡ is_some (first (get_all a es)))
        × (getitem a es ≡ or_key_error a (first (get_all a es))))
      × (get_all a es ≡ get_all b es)
      × (get a default es ≡ get b default es)
      × (contains a es ≡ contains b es)
lookups_consistent a b default es h =
    let (all, same, test) = lookups_ignore_case a b default es h in
    (lookups_agree a default es, all, same, test)
