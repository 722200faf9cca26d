-- ===== src/Senml/Shows.antt =====
-- The encoder does to its array what the draft does to its text, step by step, and never leaves
-- the array.
use team.Prelude.{
  ℕ, suc, ◌+◌, ◌-◌, ◌%◌, ◌≤◌, ◌<◌, ◌≡◌, refl, ◌∙◌, ap, true, false, Option, none, some, List, [],
  ◌∷◌, ◌++◌, length, take, set, length-append, length-set, arith, ltb, leb, lt→ltb, Bool-cases, inl,
  inr, ◌>>=◌ as ◌>?=◌,
}
use team.Prelude.Int.{negsuc}
use team.Senml.{Enc, Outcome, returned, going, ◌>>=◌, put, insert}
use team.Senml.Draft.{Draft, add}
use team.Senml.Writes.{take-set, snprintf_lem}

-- The array of so many bytes holds the draft's text, with room for the rest.
pub record Shows (size room : ℕ) (d : Draft) (st : Enc) : Type 0 where
  pub whole : length st.output ≡ size
  pub shown : take st.ins_pos st.output ≡ d.text
  pub place : st.ins_pos ≡ length d.text
  pub left : st.ins_pos + st.buf_len ≡ room
  pub brace : st.insert_opening_brace ≡ d.opens

-- What does not fit makes the encoder return -1, with the array whole.
abbrev pub Refines : ℕ → ℕ → Option Draft → Outcome → Type 0
Refines size room (some d) o = (st : Enc) × (o ≡ going st) × Shows size room d st
Refines size room none o = (out : List ℕ) × (o ≡ returned (negsuc 0) out) × (length out ≡ size)

module _ (size room : ℕ) where
  pub bind :
      (m : Option Draft) (o : Outcome) (f : Draft → Option Draft) (g : Enc → Outcome)
      → Refines size room m o
      → ((d : Draft) (st : Enc)
          → m ≡ some d
          → Shows size room d st
          → Refines size room (f d) (g st))
      → Refines size room (m >?= f) (o >>= g)
  bind none o f g (out, e, whole) next = (out, rw e, whole)
  bind (some d) o f g (st, e, h) next = rw e (next d st refl h)

  module _ (fits : room ≤ size) (small : size < 2147483648) where
    pub put-Shows :
        (c : ℕ) (d : Draft) (st : Enc)
        → Shows size room d st
        → length d.text < room
        → Refines size room (some (record d { text = d.text ++ c ∷ [] })) (put c st)
    unfolding put
    put-Shows c d st h some_left =
        let at : st.ins_pos < length st.output = omega (arith, h, fits) in
        let st' : Enc = record st {
          output = set st.output st.ins_pos c;
          ins_pos = st.ins_pos + 1;
          buf_len = (st.buf_len + 4294967295) % 4294967296;
        } in
        let e : st.ins_pos + 1 ≡ suc st.ins_pos = omega arith in
        let size_of = length-append d.text (c ∷ []) in
        let shows : Shows size room (record d { text = d.text ++ c ∷ [] }) st' = record {
          whole = length-set st.output st.ins_pos c ∙ h.whole;
          shown =
              rw e (take-set st.output st.ins_pos c at) ∙ ap (λ (t : List ℕ). t ++ c ∷ []) h.shown;
          place = omega (arith, h, size_of);
          left = omega (arith, h, some_left, fits, small);
          brace = h.brace;
        } in
        (st', rw (lt→ltb st.ins_pos (length st.output) at), shows)

    pub insert-Shows :
        (s : List ℕ) (d : Draft) (st : Enc)
        → Shows size room d st
        → Refines size room (add room s d) (insert s st)
    unfolding insert
    insert-Shows s d st h =
        let (out, runs, whole, text) =
          snprintf_lem st.output st.ins_pos st.buf_len s (omega (arith, h, fits)) in
        let signed : leb 2147483648 st.buf_len ≡ false = ground (arith, h.left, fits, small) in
        rw (runs, insert, signed)
          (elim (Bool-cases (leb st.buf_len (length s))) [
            | inl full ↦
                let over : ltb (length d.text + length s) room ≡ false =
                  ground (arith, full, h.place, h.left) in
                rw (full, over) (out, refl, whole ∙ h.whole)
            | inr room_left ↦
                let under : ltb (length d.text + length s) room ≡ true =
                  ground (arith, room_left, h.place, h.left) in
                let size_of = length-append d.text s in
                rw (room_left, under)
                  (
                    record st {
                      output = out;
                      ins_pos = st.ins_pos + length s;
                      buf_len = st.buf_len - length s;
                    },
                    refl,
                    record {
                      whole = whole ∙ h.whole;
                      shown =
                          text (ground (arith, room_left)) ∙ ap (λ (t : List ℕ). t ++ s) h.shown;
                      place = omega (arith, h, size_of);
                      left = ground (arith, room_left, h.left);
                      brace = h.brace;
                    },
                  )
          ])
