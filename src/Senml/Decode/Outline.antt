-- ===== src/Senml/Decode/Outline.antt =====
-- Which documents the decoder takes, and what a token asks for
-- (retro11/senml.c, 56-90).
use team.Prelude.{
  ℕ, ◌+◌, ◌≤◌, ◌<◌, ◌≡◌, refl, Bool, true, false, Option, none, some, List, [], ◌∷◌, length, leb,
  if◌then◌else◌, Bool-cases, inl, inr, ◌>>=◌,
}
use team.Senml.Decode.{
  TokenType, undefined, object, array, string, primitive, Token, State, is_object, Demand, skip,
  refuse, pair, classify,
}

-- What a token does to the kind that was last opened, and whether it opens a record; `none` is a
-- key of a record.
abbrev pub turn : TokenType → TokenType → Option (TokenType × Bool)
turn last array = some (array, false)
turn last object = some (object, true)
turn last string = if is_object last then none else some (last, false)
turn last undefined = some (last, false)
turn last primitive = some (last, false)

abbrev pub counted : (TokenType → Option ℕ) → Option ℕ → Option (TokenType × Bool) → Option ℕ
counted o behind none = behind
counted o behind (some (last, opens)) = o last >>= λ n. some ((if opens then 1 else 0) + n)

-- How many records a document opens, when every key has a token behind it.
unfoldable pub outline : TokenType → List Token → Option ℕ
outline last [] = some 0
outline last (t ∷ []) = counted (λ last'. some 0) none (turn last t.kind)
outline last (t ∷ v ∷ ts) =
    counted (λ last'. outline last' (v ∷ ts)) (outline last ts) (turn last t.kind)

-- The texts of the tokens lie within so many bytes.
abbrev pub AllWithin : ℕ → List Token → Type 0
AllWithin size [] = Unit
AllWithin size (t ∷ ts) = (t.start ≤ t.end) × (t.end < size) × AllWithin size ts

-- A token asks for what it does.
abbrev pub Agrees : Option (TokenType × Bool) → State → Demand → Type 0
Agrees (some (last, false)) d c =
    (c ≡ skip (record d { last_type = last }))
    × (is_object last ≡ true → is_object d.last_type ≡ true)
Agrees (some (last, true)) d c =
    let d' : State = record d { last_type = last; objects = d.objects + 1 } in
    c ≡ (if leb (length d.records) d.objects then refuse d' else skip d')
Agrees none d c = (c ≡ pair) × (is_object d.last_type ≡ true)

classify-kind :
    (k : TokenType) (start end : ℕ) (d : State)
    → Agrees (turn d.last_type k) d (classify (record { kind = k; start = start; end = end }) d)
unfolding classify
classify-kind array start end d = (refl, λ e. cc)
classify-kind object start end d = refl
classify-kind string start end d = elim (Bool-cases (is_object d.last_type)) [
  | inl e ↦ rw e (refl, e)
  | inr e ↦ rw e (refl, λ h. h)
]
classify-kind undefined start end d = (refl, λ h. h)
classify-kind primitive start end d = (refl, λ h. h)

pub classify-Agrees : (t : Token) (d : State) → Agrees (turn d.last_type t.kind) d (classify t d)
classify-Agrees t d = classify-kind t.kind t.start t.end d
