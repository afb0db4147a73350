-- ===== src/Metrics/Text.antt =====
-- The host labels of `prometheus_text` (src/metrics.rs), as lists of code points.
use lkrequest_py.Prelude.{
  ℕ, ◌≡◌, refl, Bool, true, false, List, [], ◌∷◌, ◌++◌, arith, ◌==◌, if◌then◌else◌, Bool-cases, inl,
  inr,
}

-- `str::replace` of a pattern that is one character.
replace : ℕ → List ℕ → List ℕ → List ℕ
replace c by [] = []
replace c by (x ∷ xs) = (if x == c then by else x ∷ []) ++ replace c by xs

abbrev backslash : ℕ
backslash = 92

abbrev quote : ℕ
quote = 34

-- `host.replace('\\', "\\\\").replace('"', "\\\"")`.
pub escaped_host : List ℕ → List ℕ
unfolding replace
escaped_host host =
    replace quote (backslash ∷ quote ∷ []) (replace backslash (backslash ∷ backslash ∷ []) host)

-- How a reader of the exposition format takes a label apart: up to the first quote that no
-- backslash escapes, without the backslashes that escape. The Bool says that one has just been read.
pub read_label : Bool → List ℕ → List ℕ × List ℕ
read_label escaped [] = ([], [])
read_label true (x ∷ xs) = let rest = read_label false xs in (x ∷ rest.0, rest.1)
read_label false (x ∷ xs) =
    let rest = read_label (x == backslash) xs in
    if x == quote then ([], xs) else if x == backslash then rest else (x ∷ rest.0, rest.1)

-- Written between quotes, the escaped name of every host is read back as that name, and nothing of
-- what follows the closing quote is taken for it.
pub read_label-escaped_host :
    (host rest : List ℕ) → read_label false (escaped_host host ++ quote ∷ rest) ≡ (host, rest)
unfolding read_label escaped_host
read_label-escaped_host [] rest = refl
read_label-escaped_host (x ∷ xs) rest = elim (Bool-cases (x == backslash)) [
  | inl slash ↦ rw slash (ground (arith, read_label-escaped_host xs rest))
  | inr other ↦ elim (Bool-cases (x == quote)) [
    | inl ends ↦ rw (other, escaped_host) (ground (arith, read_label-escaped_host xs rest))
    | inr plain ↦ rw (other, escaped_host) (ground (arith, read_label-escaped_host xs rest))
  ]
]
