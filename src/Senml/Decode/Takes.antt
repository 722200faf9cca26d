-- ===== src/Senml/Decode/Takes.antt =====
-- The loop over the tokens, and what the caller gets (retro11/senml.c, 26-170).
use mathlib.Core.Path.{subst}
use team.Prelude.{
  ℕ, ◌+◌, ◌≤◌, ◌<◌, ◌≡◌, refl, ap, Bool, true, false, Option, none, some, List, [], ◌∷◌, length,
  arith, leb, if◌then◌else◌, Bool-cases, inl, inr, ◌>>=◌,
}
use team.Prelude.Int.{pos, negsuc}
use team.Prelude.Text.{c_str}
use team.Senml.Decode.{
  TokenType, undefined, Token, FoundBase, FoundRecord, State, Decoded, fault, refused, decoded,
  is_object, is_array, Demand, classify, next, paired, take_pair, decode_loop, result_of, Result,
  senml_decode_json_s,
}
use team.Senml.Decode.Outline.{turn, counted, outline, AllWithin, Agrees, classify-Agrees}
use team.Senml.Decode.Pairs.{Good, Stays, take_pair-Stays}

module _ (number : List ℕ → ℕ) (size num : ℕ) where
  -- How the loop ends, by the count of records that the whole document opens.
  abbrev Ends : ℕ → Decoded → Type 0
  Ends m r =
      (m ≤ num → (d : State) × (r ≡ decoded d) × Good size num d × (d.objects ≡ m))
      × (num < m
          → (d : State) × (r ≡ refused d) × (length d.input ≡ size) × (length d.records ≡ num))

  opened-Good :
      (last : TokenType) (d : State)
      → Good size num d
      → d.objects < num
      → Good size num (record d { last_type = last; objects = d.objects + 1 })
  opened-Good last d g lt = record {
    whole = g.whole;
    recs = g.recs;
    base = g.base;
    has_base = g.has_base;
    room = omega (arith, lt);
    opened = λ e. omega arith;
  }

  turned-Good :
      (last : TokenType) (d : State)
      → Good size num d
      → (is_object last ≡ true → is_object d.last_type ≡ true)
      → Good size num (record d { last_type = last })
  turned-Good last d g h = record {
    whole = g.whole;
    recs = g.recs;
    base = g.base;
    has_base = g.has_base;
    room = g.room;
    opened = λ e. g.opened (h e);
  }

  abbrev Promise : Option ℕ → State → Decoded → Type 0
  Promise none d r = Unit
  Promise (some n) d r = Ends (d.objects + n) r

  Promise-shift :
      (o : Option ℕ) (k : ℕ) (d d' : State) (r : Decoded)
      → d'.objects ≡ d.objects + k
      → Promise o d' r
      → Promise (o >>= λ n. some (k + n)) d r
  Promise-shift none k d d' r e h = tt
  Promise-shift (some n) k d d' r e h =
      let same : d'.objects + n ≡ d.objects + (k + n) = omega (arith, e) in rw same at h

  Promise-same :
      (o : Option ℕ) (d d' : State) (r : Decoded)
      → d'.objects ≡ d.objects
      → Promise o d' r
      → Promise o d r
  Promise-same none d d' r e h = tt
  Promise-same (some n) d d' r e h =
      let same : d'.objects + n ≡ d.objects + n = omega (arith, e) in rw same at h

  Promise-refused :
      (o : Option ℕ) (last : TokenType) (d : State)
      → Good size num d
      → num ≤ d.objects
      → Promise
          (o >>= λ n. some (1 + n))
          d
          (refused (record d { last_type = last; objects = d.objects + 1 }))
  Promise-refused none last d g le = tt
  Promise-refused (some n) last d g le =
      (λ lt. absurd (omega (arith, le, lt)), λ lt. (_, refl, g.whole, g.recs))

  turned-Promise :
      (o : TokenType → Option ℕ) (last : TokenType) (opens : Bool) (d : State) (c : Demand)
      (k : State → Decoded) (p : Decoded)
      → Agrees (some (last, opens)) d c
      → Good size num d
      → ((d' : State) → Good size num d' → Promise (o d'.last_type) d' (k d'))
      → Promise (o last >>= λ n. some ((if opens then 1 else 0) + n)) d (next k p c)
  unfolding next
  turned-Promise o last false d c k p (e, h) g ih =
      let d' : State = record d { last_type = last } in
      rw e (Promise-shift (o last) 0 d d' (k d') (omega arith) (ih d' (turned-Good last d g h)))
  turned-Promise o last true d c k p e g ih =
      let d' : State = record d { last_type = last; objects = d.objects + 1 } in
      rw e (elim (Bool-cases (leb (length d.records) d.objects)) [
        | inl full ↦ rw full (Promise-refused (o last) last d g (ground (arith, full, g.recs)))
        | inr room ↦
            let lt : d.objects < num = ground (arith, room, g.recs) in
            rw room (Promise-shift (o last) 1 d d' (k d') refl (ih d' (opened-Good last d g lt)))
      ])

  decoded-Promise : (d : State) → Good size num d → Promise (some 0) d (decoded d)
  decoded-Promise d g = (λ le. (d, refl, g, omega arith), λ lt. absurd (omega (arith, lt, g.room)))

  one-Promise :
      (w : Option (TokenType × Bool)) (d : State) (c : Demand)
      → Agrees w d c
      → Good size num d
      → Promise (counted (λ last. some 0) none w) d (next decoded fault c)
  one-Promise none d c a g = tt
  one-Promise (some (last, opens)) d c a g =
      turned-Promise (λ last'. some 0) last opens d c decoded fault a g decoded-Promise

  paired-Promise :
      (o : TokenType → Option ℕ) (d : State) (r : Option State) (k : State → Decoded)
      → Stays number size num d r
      → ((d' : State) → Good size num d' → Promise (o d'.last_type) d' (k d'))
      → Promise (o d.last_type) d (paired k r)
  unfolding paired
  paired-Promise o d r k (d', e, g, objects, last) ih = rw e (
      Promise-same (o d.last_type) d d' (k d') objects
        (subst (λ (l : TokenType). Promise (o l) d' (k d')) last (ih d' g)))

  more-Promise :
      (o o' : TokenType → Option ℕ) (w : Option (TokenType × Bool)) (d : State) (c : Demand)
      (k k' : State → Decoded) (r : Option State)
      → Agrees w d c
      → Good size num d
      → (is_object d.last_type ≡ true → Stays number size num d r)
      → ((d' : State) → Good size num d' → Promise (o d'.last_type) d' (k d'))
      → ((d' : State) → Good size num d' → Promise (o' d'.last_type) d' (k' d'))
      → Promise (counted o (o' d.last_type) w) d (next k (paired k' r) c)
  unfolding next
  more-Promise o o' none d c k k' r (e, inside) g stays ih ih' =
      rw e (paired-Promise o' d r k' (stays inside) ih')
  more-Promise o o' (some (last, opens)) d c k k' r a g stays ih ih' =
      turned-Promise o last opens d c k (paired k' r) a g ih

  decode_loop-Promise :
      (ts : List Token) (d : State)
      → AllWithin size ts
      → Good size num d
      → Promise (outline d.last_type ts) d (decode_loop number ts d)
  unfolding outline decode_loop
  decode_loop-Promise [] d w g = decoded-Promise d g
  decode_loop-Promise (t ∷ []) d w g =
      one-Promise (turn d.last_type t.kind) d (classify t d) (classify-Agrees t d) g
  decode_loop-Promise (t ∷ v ∷ ts) d w g =
      more-Promise (λ last. outline last (v ∷ ts)) (λ last. outline last ts)
        (turn d.last_type t.kind) d (classify t d) (decode_loop number (v ∷ ts))
        (decode_loop number ts) (take_pair number t v d) (classify-Agrees t d) g
        (take_pair-Stays number size num t v d g (w.0, w.1) (w.2.0, w.2.1))
        (λ d' g'. decode_loop-Promise (v ∷ ts) d' w.2 g')
        (λ d' g'. decode_loop-Promise ts d' w.2.2 g')

-- What the caller gets for a document that opens n records: up to `pack->num` of them are taken,
-- with the status 0 and their number; for more, the status is -1. No array changes its length.
abbrev pub Takes : ℕ → ℕ → ℕ → Option Result → Type 0
Takes size num n r =
    (n ≤ num
      → (input : List ℕ) × (base_info : Option FoundBase) × (records : List FoundRecord) × (r
          ≡ some (pos 0, input, base_info, records, n))
        × (length input ≡ size)
        × (length records ≡ num))
    × (num < n
        → (input : List ℕ) × (base_info : Option FoundBase) × (records : List FoundRecord) × (r
            ≡ some (negsuc 0, input, base_info, records, num))
          × (length input ≡ size)
          × (length records ≡ num))

Ends-Takes :
    (number : List ℕ → ℕ) (size num n : ℕ) (r : Decoded)
    → Ends number size num n r
    → Takes size num n (result_of num r)
Ends-Takes number size num n r (takes, refuses) = (
  λ le.
      let (d, e, g, m) = takes le in
      let base_info = if d.found_base_info then d.base_info else none in
      (
        d.input,
        base_info,
        d.records,
        rw e (ap (λ (k : ℕ). some (pos 0, d.input, base_info, d.records, k)) m),
        g.whole,
        g.recs,
      ),
  λ lt.
      let (d, e, whole, recs) = refuses lt in
      (d.input, d.base_info, d.records, rw e refl, whole, recs),
)

-- When the tokens of jsmn begin with an array, lie within the input, each with its end not before
-- its start, and have a token behind every key, and the caller's base info is not NULL, the decoder stays within its input, its tokens and
-- the caller's records: it returns 0 with the number of records that the document opens if the
-- caller has room for them, and -1, never a positive number, if it has not.
pub senml_decode_json_s-Takes :
    (number : List ℕ → ℕ) (jsmn_parse : List ℕ → Option (List Token)) (input : List ℕ)
    (b : FoundBase) (records : List FoundRecord) (t : Token) (ts : List Token) (n : ℕ)
    → jsmn_parse (c_str input) ≡ some (t ∷ ts)
    → is_array t.kind ≡ true
    → AllWithin (length input) (t ∷ ts)
    → outline undefined (t ∷ ts) ≡ some n
    → Takes
        (length input)
        (length records)
        n
        (senml_decode_json_s number jsmn_parse input (some b) records)
unfolding senml_decode_json_s
senml_decode_json_s-Takes number jsmn_parse input b records t ts n tokens first within opens =
    let start : State = record {
      input = input;
      base_info = some b;
      records = records;
      objects = 0;
      last_type = undefined;
      found_base_info = false;
    } in
    let good : Good (length input) (length records) start = record {
      whole = refl;
      recs = refl;
      base = b;
      has_base = refl;
      room = omega arith;
      opened = λ e. cc;
    } in
    let run = decode_loop number (t ∷ ts) start in
    let ends =
      decode_loop-Promise number (length input) (length records) (t ∷ ts) start within good in
    let zero_first : 0 + n ≡ n = omega arith in
    rw (tokens, first)
      (Ends-Takes number (length input) (length records) n run (rw (opens, zero_first) at ends))
