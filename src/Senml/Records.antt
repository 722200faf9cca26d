-- ===== src/Senml/Records.antt =====
-- The loop over the records does to its array what the draft does.
use mathlib.Core.Path.{subst}
use team.Prelude.{
  ℕ, ◌+◌, ◌-◌, ◌≤◌, ◌<◌, ◌≡◌, refl, ◌∙◌, sym, ap, Bool, true, false, ◌&&◌, some, List, [], ◌∷◌,
  ◌++◌, length, take, get_elem?, get_elem?-lt, length-append, arith, ◌==◌, if◌then◌else◌,
  Bool-cases, inl, inr,
}
use team.Senml.{
  SenmlRecord, Enc, going, put, put_fields, drop_empty, close_record, put_record, put_records,
  any_left,
}
use team.Senml.Draft.{
  Draft, add_all, open_brace, leave_after, leave_empty, close, but_last, add_record, add_records,
  members,
}
use team.Senml.Writes.{take-take}
use team.Senml.Shows.{Shows, Refines, bind, put-Shows}
use team.Senml.Members.{put_fields-Shows}
use team.Senml.Growth.{IsGood, Grows, get_elem?-take, length-but_last, add_all-Grows}
use team.Senml.Ready.{Ready, open_brace-IsGood, add_record-Ready}

module _ (size room : ℕ) (fits : room ≤ size) (small : size < 2147483648) where
  -- The last byte is taken back from the array.
  pub back-Shows :
      (d : Draft) (st : Enc)
      → Shows size room d st
      → 0 < length d.text
      → Shows size room
          (record d { text = but_last d.text })
          (record st { ins_pos = st.ins_pos - 1; buf_len = st.buf_len + 1 })
  back-Shows d st h ne = record {
    whole = h.whole;
    shown =
        sym (take-take (st.ins_pos - 1) st.ins_pos st.output (omega arith))
        ∙ (ap (take (st.ins_pos - 1)) h.shown ∙ ap (λ (n : ℕ). take (n - 1) d.text) h.place);
    place = omega (arith, h, length-but_last d.text);
    left = omega (arith, h);
    brace = h.brace;
  }

  pub no_brace :
      (d : Draft) (st : Enc)
      → Shows size room d st
      → Shows size room (record d { opens = false }) (record st { insert_opening_brace = false })
  no_brace d st h = record {
    whole = h.whole;
    shown = h.shown;
    place = h.place;
    left = h.left;
    brace = refl;
  }

  drop_empty-Shows :
      (d : Draft) (st : Enc)
      → Shows size room d st
      → 0 < length d.text
      → Refines size room (some (leave_empty d)) (drop_empty st)
  unfolding drop_empty leave_empty
  drop_empty-Shows d st h ne =
      let i = st.ins_pos - 1 in
      let (c, at) = get_elem?-lt d.text (length d.text - 1) (omega (arith, ne)) in
      let got : get_elem? st.output i ≡ some c =
        sym (get_elem?-take st.output st.ins_pos i (omega (arith, ne, h)))
        ∙ (ap (λ (t : List ℕ). get_elem? t i) h.shown
            ∙ (ap (λ (n : ℕ). get_elem? d.text (n - 1)) h.place ∙ at)) in
      rw (at, got, drop_empty)
        (elim (Bool-cases (c == 123)) [
          | inl brace ↦ unfold leave_after in rw brace (_, refl, back-Shows d st h ne)
          | inr other ↦ unfold leave_after in rw other (_, refl, no_brace d st h)
        ])

  with_brace :
      (d : Draft) (st : Enc)
      → Shows size room d st
      → Shows size room (record d { opens = true }) (record st { insert_opening_brace = true })
  with_brace d st h = record {
    whole = h.whole;
    shown = h.shown;
    place = h.place;
    left = h.left;
    brace = refl;
  }

  close-Shows :
      (more : Bool) (d : Draft) (st : Enc)
      → Shows size room d st
      → 0 < length d.text
      → length d.text < room
      → Refines size room (close room more d) (close_record more st)
  unfolding close close_record
  close-Shows more d st h ne lt =
      let d1 = record d { text = but_last d.text } in
      let d2 = record d1 { text = but_last d.text ++ 125 ∷ [] } in
      let size1 = length-but_last d.text in
      let size2 = length-append (but_last d.text) (125 ∷ []) in
      let (s1, e1, h1) =
        put-Shows size room fits small 125 d1 _ (back-Shows d st h ne) (omega (arith, lt, size1)) in
      let (s2, e2, h2) =
        put-Shows size room fits small 44 d2 s1 h1 (omega (arith, lt, ne, size1, size2)) in
      let same : (more && s2.buf_len == 0)
          ≡ (more && length ((but_last d.text ++ 125 ∷ []) ++ 44 ∷ []) == room) =
        ground (arith, h2.place, h2.left) in
      rw (e1, e2, same)
        (elim (Bool-cases (more && length ((but_last d.text ++ 125 ∷ []) ++ 44 ∷ []) == room)) [
          | inl full ↦ rw full (s2.output, refl, h2.whole)
          | inr left ↦ rw left (_, refl, with_brace _ s2 h2)
        ])

  open_as :
      (opens : Bool) (d : Draft) (st : Enc)
      → Shows size room d st
      → length d.text < room
      → Refines size room
          (some (if opens then record d { text = d.text ++ 123 ∷ [] } else d))
          (if opens then put 123 st else going st)
  open_as true d st h lt = put-Shows size room fits small 123 d st h lt
  open_as false d st h lt = (st, refl, h)

  open-Shows :
      (d : Draft) (st : Enc)
      → Shows size room d st
      → length d.text < room
      → Refines size room
          (some (open_brace d))
          (if st.insert_opening_brace then put 123 st else going st)
  open-Shows d st h lt =
      subst
        (λ (b : Bool). Refines size room (some (open_brace d)) (if b then put 123 st else going st))
        (sym h.brace) (open_as d.opens d st h lt)

  -- After the members: either nothing was added, or the record is closed.
  after_members :
      (more : Bool) (d1 d2 : Draft) (st1 st2 : Enc)
      → Shows size room d1 st1
      → Shows size room d2 st2
      → Grows room d1 d2
      → Refines size room
          (if length d2.text == length d1.text then some (leave_empty d2) else close room more d2)
          (if st2.buf_len == st1.buf_len then drop_empty st2 else close_record more st2)
  after_members more d1 d2 st1 st2 h1 h2 gr =
      let same : (st2.buf_len == st1.buf_len) ≡ (length d2.text == length d1.text) =
        ground (arith, h2.place, h2.left, h1.place, h1.left) in
      rw same (elim (Bool-cases (length d2.text == length d1.text)) [
        | inl empty ↦ rw empty (drop_empty-Shows d2 st2 h2 gr.good.some_text)
        | inr filled ↦ rw filled (elim gr.spare [
          | inl e ↦
              let as_long = ap (λ (x : Draft). length x.text) e in
              absurd (ground (arith, filled, as_long))
          | inr (longer, lt) ↦ close-Shows more d2 st2 h2 gr.good.some_text lt
        ])
      ])

  put_record-Shows :
      (more : Bool) (r : SenmlRecord) (d : Draft) (st : Enc)
      → Shows size room d st
      → IsGood room d.text
      → length d.text < room
      → Refines size room (add_record room more r d) (put_record more r st)
  unfolding add_record put_record
  put_record-Shows more r d st h good lt =
      let (st1, opened, h1) = open-Shows d st h lt in
      rw opened (
        bind size room (add_all room (members r) (open_brace d)) (put_fields r st1) _ _
          (put_fields-Shows size room fits small r (open_brace d) st1 h1)
          (λ d2 st2 e h2. after_members more (open_brace d) d2 st1 st2 h1 h2 (
            add_all-Grows room (members r) (open_brace d) d2 (open_brace-IsGood room d good lt) e)))

  pub put_records-Shows :
      (records : List SenmlRecord) (d : Draft) (st : Enc)
      → Shows size room d st
      → Ready room (any_left records) d.text
      → Refines size room (add_records room records d) (put_records records st)
  unfolding add_records put_records
  put_records-Shows [] d st h ready = (st, refl, h)
  put_records-Shows (r ∷ records) d st h ready =
      bind size room (add_record room (any_left records) r d) (put_record (any_left records) r st)
        (add_records room records) (put_records records)
        (put_record-Shows (any_left records) r d st h ready.good (ready.next refl))
        (λ d' st' e h'.
          put_records-Shows records d' st' h'
            (add_record-Ready room (any_left records) r d d' ready.good (ready.next refl) e))
