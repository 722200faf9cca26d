-- ===== src/Senml/Encode.antt =====
-- The whole encoder against its draft.
use mathlib.Core.Path.{subst}
use mathlib.Core.Option.{some-injective}
use team.Prelude.{
  ℕ, ◌+◌, ◌-◌, ◌≤◌, ◌<◌, ◌≡◌, refl, true, false, Option, none, some, List, [], ◌∷◌, ◌++◌, length,
  take, arith, ltb, ◌==◌, Bool-cases, inl, inr,
}
use team.Prelude.Int.{ℤ, pos, negsuc}
use team.Senml.{
  BaseInfo, SenmlRecord, Pack, Enc, Outcome, finish, put_head, put_body, result_of,
  senml_encode_json_s,
}
use team.Senml.Draft.{Draft, base_members, add_records, draft_head, draft_finish, draft_body, draft}
use team.Senml.Shows.{Shows, Refines, put-Shows}
use team.Senml.Members.{put_base-Shows}
use team.Senml.Growth.{IsGood, add_all-Grows}
use team.Senml.Ready.{Ready, add_records-IsGood}
use team.Senml.Records.{put_records-Shows, no_brace}
use team.Senml.Ending.{Holds, Ends, close_document, finish-Ends, Ends-bind}

module _ (size : ℕ) (three : 2 < size) (small : size < 2147483648) where
  put_head-Shows :
      (base_info : Option BaseInfo) (st : Enc)
      → Shows size size (record { text = []; opens = true }) st
      → Refines size size (draft_head size base_info) (put_head base_info st)
  unfolding draft_head put_head
  put_head-Shows none st h =
      let (s1, e1, h1) = put-Shows size size (omega arith) small 91 _ st h (omega (arith, three)) in
      rw e1 (s1, refl, h1)
  put_head-Shows (some b) st h =
      let (s1, e1, h1) = put-Shows size size (omega arith) small 91 _ st h (omega (arith, three)) in
      let (s2, e2, h2) =
        put-Shows size size (omega arith) small 123 _ s1 h1 (omega (arith, three)) in
      rw (e1, e2)
        (put_base-Shows size size (omega arith) small b _ _
          (no_brace size size (omega arith) small _ s2 h2))

  draft_head-IsGood :
      (base_info : Option BaseInfo) (d : Draft)
      → draft_head size base_info ≡ some d
      → IsGood size d.text
  unfolding draft_head
  draft_head-IsGood none d e =
      subst (λ (x : Draft). IsGood size x.text) (some-injective _ _ e)
        (record { bracket = refl; some_text = omega arith; within = omega (arith, three) })
  draft_head-IsGood (some b) d e =
      let good =
        add_all-Grows size (base_members b) (record { text = 91 ∷ 123 ∷ []; opens = false }) d
          (record { bracket = refl; some_text = omega arith; within = omega (arith, three) }) e in
      good.good

  holds : {room : ℕ} (d : Draft) (st : Enc) → Shows size room d st → Holds size d.text st
  holds d st h = record { whole = h.whole; shown = h.shown; place = h.place }

  -- The byte that is kept for the NUL.
  reserve :
      (d : Draft) (st : Enc)
      → Shows size size d st
      → length d.text < size
      → Shows size (size - 1) d (record st { buf_len = st.buf_len - 1 })
  reserve d st h lt = record {
    whole = h.whole;
    shown = h.shown;
    place = h.place;
    left = omega (arith, h, lt);
    brace = h.brace;
  }

  put_body-Ends :
      (records : List SenmlRecord) (d : Draft) (st : Enc)
      → Shows size size d st
      → IsGood size d.text
      → Ends size (draft_body size records d) (put_body records st)
  unfolding draft_body put_body
  put_body-Ends [] d st h g =
      let same : (st.ins_pos == 1) ≡ (length d.text == 1) = ground (arith, h.place) in
      rw same (elim (Bool-cases (length d.text == 1)) [
        | inl bare ↦
            rw bare
              (close_document size small d.text st (holds d st h) (ground (arith, bare, three)))
        | inr more ↦ rw more (st.output, refl, h.whole)
      ])
  put_body-Ends (r ∷ records) d st h g =
      let n = length d.text in
      let same : ltb st.buf_len 4 ≡ ltb (size - n) 4 = ground (arith, h.place, h.left) in
      rw same (elim (Bool-cases (ltb (size - n) 4)) [
        | inl full ↦ rw full (st.output, refl, h.whole)
        | inr left ↦
            let four : n + 4 ≤ size = ground (arith, left, g.within) in
            let ready : Ready (size - 1) true d.text = record {
              good = record { bracket = g.bracket; some_text = g.some_text; within = omega arith };
              next = λ m. omega arith;
            } in
            rw left (
              Ends-bind size small (size - 1) (add_records (size - 1) (r ∷ records) d) _ _ _
                (put_records-Shows size (size - 1) (omega arith) small (r ∷ records) d _
                  (reserve d st h (omega (arith, four))) ready)
                (λ d' st' e h'.
                  subst (λ (k : ℕ). Ends size (draft_finish k d') (finish st.ins_pos st')) h.place
                    (finish-Ends size small (size - 1) st.ins_pos d' st' h' (omega (arith, three))
                      three (add_records-IsGood (size - 1) (r ∷ records) d d' ready e))))
      ])

-- What the caller gets: the status 0 and the document with its NUL at the head of the array, or
-- -1.
abbrev pub Returns : ℕ → Option (List ℕ) → Option (ℤ × List ℕ) → Type 0
Returns size (some doc) r =
    (out : List ℕ) × (r ≡ some (pos 0, out))
    × (length out ≡ size)
    × (take (length doc + 1) out ≡ doc ++ 0 ∷ [])
Returns size none r = (out : List ℕ) × (r ≡ some (negsuc 0, out)) × (length out ≡ size)

Ends-Returns :
    (size : ℕ) (spec : Option (List ℕ)) (o : Outcome)
    → Ends size spec o
    → Returns size spec (result_of o)
Ends-Returns size none o (out, e, whole) = (out, rw e, whole)
Ends-Returns size (some doc) o (st, e, whole, text) = (st.output, rw e, whole, text)

-- For every pack and every length of the array, the encoder writes only within the array, and it
-- returns what the encoder without an array does: the same document with a NUL and status 0, or
-- -1.
pub senml_encode_json_s-Returns :
    (pack : Pack) (output : List ℕ) (len : ℕ)
    → length output ≡ len
    → len < 2147483648
    → Returns len (draft len pack) (senml_encode_json_s pack output len)
unfolding draft senml_encode_json_s
senml_encode_json_s-Returns pack output len e small = elim (Bool-cases (ltb len 3)) [
  | inl short ↦ rw short (output, refl, e)
  | inr long ↦
      let three : 2 < len = ground (arith, long) in
      let start : Enc = record {
        output = output;
        ins_pos = 0;
        buf_len = len;
        insert_opening_brace = true;
      } in
      let empty : Shows len len (record { text = []; opens = true }) start = record {
        whole = e;
        shown = refl;
        place = refl;
        left = omega arith;
        brace = refl;
      } in
      rw long (
        Ends-Returns len _ _ (
          Ends-bind len small len (draft_head len pack.base_info) _ _ _
            (put_head-Shows len three small pack.base_info start empty)
            (λ d st head h.
              put_body-Ends len three small pack.records d st h
                (draft_head-IsGood len three small pack.base_info d head))))
]
