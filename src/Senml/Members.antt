-- ===== src/Senml/Members.antt =====
-- The members of the base info and of a record, one `snprintf` each.
use mathlib.Core.List.{append_assoc}
use Prim.Native.String.{String}
use team.Prelude.{
  ℕ, ◌≤◌, ◌<◌, ◌≡◌, refl, ◌∙◌, ap, true, false, Option, none, some, List, [], ◌∷◌, ◌++◌, ◌==◌,
  Bool-cases, Option-cases, inl, inr, ◌>>=◌ as ◌>?=◌,
}
use team.Prelude.Text.{codes, c_str, print_dec, print_ld}
use team.Senml.{
  BaseInfo, Value, undef, int, string, bool, binary, SenmlRecord, Enc, Outcome, ◌>>=◌, insert,
  add_string, add_number, add_value, put_base, put_fields,
}
use team.Senml.Draft.{
  Draft, add, add_all, string_member, number_member, value_member, base_members, members,
}
use team.Senml.Shows.{Shows, Refines, bind, insert-Shows}

add_all-append :
    (room : ℕ) (ms ns : List (List ℕ)) (d : Draft)
    → add_all room (ms ++ ns) d ≡ (add_all room ms d >?= add_all room ns)
unfolding add_all
add_all-append room [] ns d = refl
add_all-append room (m ∷ ms) ns d = elim (Option-cases (add room (m ++ codes ",") d)) [
  | inl e ↦ rw e
  | inr (d', e) ↦ rw e (add_all-append room ms ns d')
]

pub bind-some : (m : Option Draft) → (m >?= λ d. some d) ≡ m
bind-some none = refl
bind-some (some d) = refl

-- A member that ends in a quote or not, with its comma.
quoted : (key s : List ℕ) → (key ++ (s ++ codes "\"")) ++ codes "," ≡ key ++ (s ++ codes "\",")
quoted key s =
    append_assoc key (s ++ codes "\"") (codes ",")
    ∙ ap (λ (t : List ℕ). key ++ t) (append_assoc s (codes "\"") (codes ","))

module _ (size room : ℕ) (fits : room ≤ size) (small : size < 2147483648) where
  one_member :
      (m t : List ℕ) (d : Draft) (st : Enc)
      → m ++ codes "," ≡ t
      → Shows size room d st
      → Refines size room (add_all room (m ∷ []) d) (insert t st)
  unfolding add_all
  one_member m t d st e h =
      rw (e, bind-some (add room t d)) (insert-Shows size room fits small t d st h)

  string-Shows :
      (key : String) (value : Option (List ℕ)) (d : Draft) (st : Enc)
      → Shows size room d st
      → Refines size room (add_all room (string_member key value) d) (add_string key value st)
  string-Shows key none d st h = unfold add_all in (st, refl, h)
  string-Shows key (some s) d st h = one_member _ _ d st (quoted (codes key) (c_str s)) h

  number-Shows :
      (key : String) (print : ℕ → List ℕ) (n : ℕ) (d : Draft) (st : Enc)
      → Shows size room d st
      → Refines size room (add_all room (number_member key print n) d) (add_number key print n st)
  number-Shows key print n d st h = elim (Bool-cases (n == 0)) [
    | inl z ↦ rw z (unfold add_all in (st, refl, h))
    | inr nz ↦ rw nz (one_member _ _ d st (append_assoc (codes key) (print n) (codes ",")) h)
  ]

  value-Shows :
      (v : Value) (d : Draft) (st : Enc)
      → Shows size room d st
      → Refines size room (add_all room (value_member v) d) (add_value v st)
  value-Shows undef d st h = unfold add_all in (st, refl, h)
  value-Shows (int n) d st h =
      one_member _ _ d st (append_assoc (codes "\"v\":") (print_dec n) (codes ",")) h
  value-Shows (string s) d st h = one_member _ _ d st (quoted (codes "\"vs\":\"") (c_str s)) h
  value-Shows (bool true) d st h = one_member _ _ d st refl h
  value-Shows (bool false) d st h = one_member _ _ d st refl h
  value-Shows (binary s) d st h = one_member _ _ d st (quoted (codes "\"vd\":\"") (c_str s)) h

  -- Some members, and then those that follow.
  members_bind :
      (ms ns : List (List ℕ)) (d : Draft) (o : Outcome) (g : Enc → Outcome)
      → Refines size room (add_all room ms d) o
      → ((d' : Draft) (st : Enc)
          → Shows size room d' st
          → Refines size room (add_all room ns d') (g st))
      → Refines size room (add_all room (ms ++ ns) d) (o >>= g)
  members_bind ms ns d o g first next =
      rw (add_all-append room ms ns d)
        (bind size room (add_all room ms d) o (add_all room ns) g first (λ d' st e h. next d' st h))

  pub put_base-Shows :
      (b : BaseInfo) (d : Draft) (st : Enc)
      → Shows size room d st
      → Refines size room (add_all room (base_members b) d) (put_base b st)
  unfolding base_members put_base
  put_base-Shows b d st h =
      members_bind _ _ d _ _ (number-Shows "\"bver\":" print_dec b.version d st h) λ d1 st1 h1.
        members_bind _ _ d1 _ _ (string-Shows "\"bn\":\"" b.base_name d1 st1 h1) λ d2 st2 h2.
          members_bind _ _ d2 _ _ (number-Shows "\"bt\":" print_dec b.base_time d2 st2 h2)
            λ d3 st3 h3.
              members_bind _ _ d3 _ _ (string-Shows "\"bu\":\"" b.base_unit d3 st3 h3) λ d4 st4 h4.
                members_bind _ _ d4 _ _ (number-Shows "\"bv\":" print_dec b.base_value d4 st4 h4)
                  λ d5 st5 h5. number-Shows "\"bs\":" print_dec b.base_sum d5 st5 h5

  pub put_fields-Shows :
      (r : SenmlRecord) (d : Draft) (st : Enc)
      → Shows size room d st
      → Refines size room (add_all room (members r) d) (put_fields r st)
  unfolding members put_fields
  put_fields-Shows r d st h =
      members_bind _ _ d _ _ (string-Shows "\"n\":\"" r.name d st h) λ d1 st1 h1.
        members_bind _ _ d1 _ _ (string-Shows "\"u\":\"" r.unit d1 st1 h1) λ d2 st2 h2.
          members_bind _ _ d2 _ _ (string-Shows "\"l\":\"" r.link d2 st2 h2) λ d3 st3 h3.
            members_bind _ _ d3 _ _ (number-Shows "\"t\":" print_ld r.time d3 st3 h3) λ d4 st4 h4.
              members_bind _ _ d4 _ _ (number-Shows "\"ut\":" print_ld r.update_time d4 st4 h4)
                λ d5 st5 h5.
                  members_bind _ _ d5 _ _ (number-Shows "\"s\":" print_dec r.value_sum d5 st5 h5)
                    λ d6 st6 h6. value-Shows r.value d6 st6 h6
