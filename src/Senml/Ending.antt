-- ===== src/Senml/Ending.antt =====
-- The end of the document: the steps behind the loop, and what follows a part that fits.
use team.Prelude.{
  ℕ, suc, ◌+◌, ◌-◌, ◌%◌, ◌<◌, ◌≡◌, refl, ◌∙◌, ap, Option, none, some, List, [], ◌∷◌, ◌++◌, length,
  take, set, length-append, length-set, arith, ltb, lt→ltb, ◌==◌, Bool-cases, inl, inr,
  ◌>>=◌ as ◌>?=◌,
}
use team.Prelude.Int.{negsuc}
use team.Senml.{Enc, Outcome, returned, going, ◌>>=◌, put, finish}
use team.Senml.Draft.{Draft, but_last, draft_finish}
use team.Senml.Writes.{take-set}
use team.Senml.Shows.{Shows, Refines}
use team.Senml.Growth.{IsGood, length-but_last}
use team.Senml.Records.{back-Shows}

-- The array begins with the text, and the next byte goes behind it.
pub record Holds (size : ℕ) (t : List ℕ) (st : Enc) : Type 0 where
  pub whole : length st.output ≡ size
  pub shown : take st.ins_pos st.output ≡ t
  pub place : st.ins_pos ≡ length t

-- How the encoder ends: with the document and its NUL in the array, or with -1.
abbrev pub Ends : ℕ → Option (List ℕ) → Outcome → Type 0
Ends size (some doc) o =
    (st : Enc) × (o ≡ going st)
    × (length st.output ≡ size)
    × (take (length doc + 1) st.output ≡ doc ++ 0 ∷ [])
Ends size none o = (out : List ℕ) × (o ≡ returned (negsuc 0) out) × (length out ≡ size)

module _ (size : ℕ) (small : size < 2147483648) where
  put-Holds :
      (c : ℕ) (t : List ℕ) (st : Enc)
      → Holds size t st
      → length t < size
      → (st' : Enc) × (put c st ≡ going st') × Holds size (t ++ c ∷ []) st'
  unfolding put
  put-Holds c t st h lt =
      let at : st.ins_pos < length st.output = omega (arith, h, lt) in
      let e : st.ins_pos + 1 ≡ suc st.ins_pos = omega arith in
      (
        record st {
          output = set st.output st.ins_pos c;
          ins_pos = st.ins_pos + 1;
          buf_len = (st.buf_len + 4294967295) % 4294967296;
        },
        rw (lt→ltb st.ins_pos (length st.output) at),
        record {
          whole = length-set st.output st.ins_pos c ∙ h.whole;
          shown =
              rw e (take-set st.output st.ins_pos c at) ∙ ap (λ (s : List ℕ). s ++ c ∷ []) h.shown;
          place = omega (arith, h, length-append t (c ∷ []));
        },
      )

  -- The closing bracket and the NUL.
  pub close_document :
      (t : List ℕ) (st : Enc)
      → Holds size t st
      → length t + 1 < size
      → Ends size (some (t ++ 93 ∷ [])) (put 93 st >>= put 0)
  close_document t st h lt =
      let (s1, e1, h1) = put-Holds 93 t st h (omega (arith, lt)) in
      let (s2, e2, h2) =
        put-Holds 0 (t ++ 93 ∷ []) s1 h1 (omega (arith, lt, length-append t (93 ∷ []))) in
      let at : length (t ++ 93 ∷ []) + 1 ≡ s2.ins_pos =
        omega (arith, h2.place, length-append (t ++ 93 ∷ []) (0 ∷ [])) in
      rw e1 (s2, e2, h2.whole, rw at h2.shown)

  as_it_is :
      {room : ℕ} (d : Draft) (st : Enc)
      → Shows size room d st
      → Holds size d.text (record st { buf_len = st.buf_len + 2 })
  as_it_is d st h = record { whole = h.whole; shown = h.shown; place = h.place }

  drop_comma :
      {room : ℕ} (d : Draft) (st : Enc)
      → Shows size room d st
      → room < size
      → IsGood room d.text
      → Holds size
          (but_last d.text)
          (record st { ins_pos = st.ins_pos - 1; buf_len = st.buf_len + 2 })
  drop_comma {room} d st h lt g =
      let back = back-Shows size room (omega arith) small d st h g.some_text in
      record { whole = back.whole; shown = back.shown; place = back.place }

  pub finish-Ends :
      (room after_bi : ℕ) (d : Draft) (st : Enc)
      → Shows size room d st
      → room < size
      → 2 < size
      → IsGood room d.text
      → Ends size (draft_finish after_bi d) (finish after_bi st)
  unfolding draft_finish finish
  finish-Ends room after_bi d st h lt three g =
      let n = length d.text in
      let same : (st.ins_pos + 1 == after_bi) ≡ (n + 1 == after_bi) = ground (arith, h.place) in
      let same_end : ltb 1 st.ins_pos ≡ ltb 1 n = ground (arith, h.place) in
      rw same (elim (Bool-cases (n + 1 == after_bi)) [
        | inl nothing ↦ rw nothing (st.output, refl, h.whole)
        | inr something ↦
            rw (something, same_end)
              (elim (Bool-cases (ltb 1 n)) [
                | inl comma ↦ rw comma (
                    close_document (but_last d.text) _ (drop_comma d st h lt g)
                      (omega (arith, lt, g, length-but_last d.text)))
                | inr bare ↦
                    rw bare
                      (close_document d.text _ (as_it_is d st h) (ground (arith, bare, three)))
              ])
      ])

  -- A step that shows a draft, and one that ends.
  pub Ends-bind :
      (room : ℕ) (m : Option Draft) (o : Outcome) (f : Draft → Option (List ℕ)) (g : Enc → Outcome)
      → Refines size room m o
      → ((d : Draft) (st : Enc) → m ≡ some d → Shows size room d st → Ends size (f d) (g st))
      → Ends size (m >?= f) (o >>= g)
  Ends-bind room none o f g (out, e, whole) next = (out, rw e, whole)
  Ends-bind room (some d) o f g (st, e, h) next = rw e (next d st refl h)
