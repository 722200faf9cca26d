-- ===== src/Senml/Solid.antt =====
-- No member of a record is an empty text (retro11/senml.c, 332-414).
use team.Prelude.{
  ℕ, ◌≤◌, ◌≢◌, refl, Option, none, some, List, [], ◌∷◌, ◌++◌, length, length-append, arith, ◌==◌,
  if◌then◌else◌, Bool-cases, inl, inr,
}
use Prim.Native.String.{String}
use team.Prelude.Text.{codes, c_str, print_ld, print_dec}
use team.Senml.{Value, undef, int, string, bool, binary, SenmlRecord}
use team.Senml.Draft.{string_member, number_member, value_member, members}
use team.Senml.Document.{commas}

-- No text of the list is empty.
abbrev Solid : List (List ℕ) → Type 0
Solid [] = Unit
Solid (m ∷ ms) = (1 ≤ length m) × Solid ms

Solid-append : (ms ns : List (List ℕ)) → Solid ms → Solid ns → Solid (ms ++ ns)
Solid-append [] ns a b = b
Solid-append (m ∷ ms) ns a b = (a.0, Solid-append ms ns a.1 b)

longer : (k s : List ℕ) → 1 ≤ length k → 1 ≤ length (k ++ s)
longer k s le = ground (arith, le, length-append k s)

string_member-Solid :
    (key : String) (value : Option (List ℕ))
    → 1 ≤ length (codes key)
    → Solid (string_member key value)
string_member-Solid key none le = tt
string_member-Solid key (some s) le = (longer (codes key) (c_str s ++ codes "\"") le, tt)

number_member-Solid :
    (key : String) (print : ℕ → List ℕ) (n : ℕ)
    → 1 ≤ length (codes key)
    → Solid (number_member key print n)
number_member-Solid key print n le = elim (Bool-cases (n == 0)) [
  | inl e ↦ rw e tt
  | inr e ↦ rw e (longer (codes key) (print n) le, tt)
]

value_member-Solid : (v : Value) → Solid (value_member v)
value_member-Solid undef = tt
value_member-Solid (int n) = (longer (codes "\"v\":") (print_dec n) (omega arith), tt)
value_member-Solid (string s) =
    (longer (codes "\"vs\":\"") (c_str s ++ codes "\"") (omega arith), tt)
value_member-Solid (bool b) =
    (longer (codes "\"vb\":") (if b then codes "true" else codes "false") (omega arith), tt)
value_member-Solid (binary d) =
    (longer (codes "\"vd\":\"") (c_str d ++ codes "\"") (omega arith), tt)

pub members-Solid : (r : SenmlRecord) → Solid (members r)
unfolding members
members-Solid r = Solid-append _ _ (string_member-Solid "\"n\":\"" r.name (omega arith)) (
    Solid-append _ _ (string_member-Solid "\"u\":\"" r.unit (omega arith)) (
      Solid-append _ _ (string_member-Solid "\"l\":\"" r.link (omega arith)) (
        Solid-append _ _ (number_member-Solid "\"t\":" print_ld r.time (omega arith)) (
          Solid-append _ _ (number_member-Solid "\"ut\":" print_ld r.update_time (omega arith)) (
            Solid-append _ _ (number_member-Solid "\"s\":" print_dec r.value_sum (omega arith))
              (value_member-Solid r.value))))))

pub commas-Solid : (ms : List (List ℕ)) → Solid ms → ms ≢ [] → 1 ≤ length (commas ms)
unfolding commas
commas-Solid [] a ne = absurd (ne refl)
commas-Solid (m ∷ []) a ne = a.0
commas-Solid (m ∷ n ∷ ms) a ne = longer m (codes "," ++ commas (n ∷ ms)) a.0
