-- ===== src/Dns/Ports.antt =====
-- The ports that src/dns.rs accepts.
use lkrequest_py.Prelude.{
  ℕ, ◌+◌, ◌-◌, ◌*◌, ◌^◌, ◌<◌, ◌≡◌, String, Bool, true, false, Option, none, some, arith,
  if◌then◌else◌, leb, ◌&&◌, ◌==◌, refl, ltb, Bool-cases, inl, inr, Option-cases,
}
use Prim.Native.Char.{code}
use lkrequest_py.Dns.{parse_digits, parse_u16, parse_port}

if-some :
    (b : Bool) (o : Option ℕ) {n : ℕ} → (if b then o else none) ≡ some n → (b ≡ true) × (o ≡ some n)
if-some true o e = (refl, e)
if-some false o e = cc

-- Every step is checked, so the number stays inside 16 bits.
parse_digits-lt :
    (acc : ℕ) (s : String) {n : ℕ} → acc < 65536 → parse_digits acc s ≡ some n → n < 65536
unfolding parse_digits
parse_digits-lt acc String.[] h e = ground arith
parse_digits-lt acc (String.◌∷◌ c s) h e =
    let next = acc * 10 + (code c - 48) in
    let (b, r) =
      if-some ((leb 48 (code c) && leb (code c) 57) && ltb next (2 ^ 16)) (parse_digits next s) e in
    let lt : next < 65536 = ground arith in parse_digits-lt next s lt r

parse_u16-lt : (s : String) {n : ℕ} → parse_u16 s ≡ some n → n < 65536
unfolding parse_u16
parse_u16-lt String.[] e = cc
parse_u16-lt (String.◌∷◌ c String.[]) e = parse_digits-lt 0 (String.◌∷◌ c String.[]) (omega arith) e
parse_u16-lt (String.◌∷◌ c (String.◌∷◌ d s)) e = elim (Bool-cases (code c == 43)) [
  | inl plus ↦ parse_digits-lt 0 (String.◌∷◌ d s) (omega arith) (rw plus at e)
  | inr other ↦ parse_digits-lt 0 (String.◌∷◌ c (String.◌∷◌ d s)) (omega arith) (rw other at e)
]

pub parse_port-bounds : (s : String) {n : ℕ} → parse_port s ≡ some n → (0 < n) × (n < 65536)
unfolding parse_port
parse_port-bounds s e = elim (Option-cases (parse_u16 s)) [
  | inl none_of ↦ cc
  | inr (port, some_of) ↦ let lt = parse_u16-lt s some_of in ground arith
]
