-- ===== src/Client/Entries.antt =====
-- The highscores that the client collects: the arrays `nameslist` and `resultslist` of 50 places
-- and `entry_counter` (retro11/coap_client.c). A write outside an array is undefined: `none`.
use team.Prelude.{
  ℕ, ◌+◌, ◌<◌, ◌≡◌, Option, none, some, List, [], length, set, get_elem?, length-set,
  get_elem?-set_self, get_elem?-set_ne, replicate, arith, ltb, leb, lt→ltb, if◌then◌else◌, ◌>>=◌,
  ◌∙◌,
}
use team.Prelude.Int.{ℤ, pos}
use team.Prelude.Text.{atol}
use team.Client.{Client, Text, literal, read}

pub record Entries : Type 0 where
  pub entry_counter : ℕ
  pub nameslist : List Text
  pub resultslist : List ℤ

abbrev write {ℓ} : {A : Type ℓ} → List A → ℕ → A → Option (List A)
write l i v = if ltb i (length l) then some (set l i v) else none

-- The globals at the start.
abbrev pub no_entries : Entries
no_entries = record {
  entry_counter = 0;
  nameslist = replicate 50 (literal []);
  resultslist = replicate 50 (pos 0);
}

-- Both entries of a round. With 48 entries the counter starts again.
unfoldable pub set_entry_counter : (List ℕ → List ℕ) → Client → Entries → Option Entries
set_entry_counter stack c e = do
  let i = e.entry_counter
  names ← write e.nameslist i c.m0_name
  names' ← write names (i + 1) c.m1_name
  results ← write e.resultslist i (atol (read stack c.m0_result))
  results' ← write results (i + 1) (atol (read stack c.m1_result))
  some (record {
    entry_counter = if leb 48 (i + 2) then 0 else i + 2;
    nameslist = names';
    resultslist = results';
  })

pub record IsValid (e : Entries) : Type 0 where
  pub room : e.entry_counter < 48
  pub names : length e.nameslist ≡ 50
  pub results : length e.resultslist ≡ 50

-- An entry of a round, where the round began to write.
pub record Holds (i : ℕ) (name : Text) (result : ℤ) (e : Entries) : Type 0 where
  pub named : get_elem? e.nameslist i ≡ some name
  pub timed : get_elem? e.resultslist i ≡ some result

pub no_entries-IsValid : IsValid no_entries
no_entries-IsValid = ground arith

write_lem {ℓ} :
    {A : Type ℓ} (l : List A) (i : ℕ) (v : A) → i < length l → write l i v ≡ some (set l i v)
write_lem l i v h = rw (lt→ltb i (length l) h)

module _ {ℓ} {A : Type ℓ} (l : List A) (i : ℕ) (v w : A) (room : i + 1 < length l) where
  first_written : get_elem? (set (set l i v) (i + 1) w) i ≡ some v
  first_written =
      get_elem?-set_ne (set l i v) w (omega arith) ∙ get_elem?-set_self l i v (omega arith)

  second_written : get_elem? (set (set l i v) (i + 1) w) (i + 1) ≡ some w
  second_written = get_elem?-set_self (set l i v) (i + 1) w (omega (arith, length-set l i v))

abbrev after_round : (List ℕ → List ℕ) → Client → Entries → Entries
after_round stack c e =
    let i = e.entry_counter in
    record {
      entry_counter = if leb 48 (i + 2) then 0 else i + 2;
      nameslist = set (set e.nameslist i c.m0_name) (i + 1) c.m1_name;
      resultslist =
          set (set e.resultslist i (atol (read stack c.m0_result))) (i + 1)
            (atol (read stack c.m1_result));
    }

set_entry_counter_lem :
    (stack : List ℕ → List ℕ) (c : Client) (e : Entries)
    → IsValid e
    → set_entry_counter stack c e ≡ some (after_round stack c e)
unfolding set_entry_counter
set_entry_counter_lem stack c e v =
    let i = e.entry_counter in
    let names1 = write_lem e.nameslist i c.m0_name (omega (arith, v)) in
    let names2 =
      write_lem (set e.nameslist i c.m0_name) (i + 1) c.m1_name
        (omega (arith, v, length-set e.nameslist i c.m0_name)) in
    let r0 = atol (read stack c.m0_result) in
    let results1 = write_lem e.resultslist i r0 (omega (arith, v)) in
    let results2 =
      write_lem (set e.resultslist i r0) (i + 1) (atol (read stack c.m1_result))
        (omega (arith, v, length-set e.resultslist i r0)) in
    rw names1 (rw names2 (rw results1 (rw results2)))

after_round-IsValid :
    (stack : List ℕ → List ℕ) (c : Client) (e : Entries)
    → IsValid e
    → IsValid (after_round stack c e)
after_round-IsValid stack c e v = record {
  room = ground arith;
  names = length-set _ (e.entry_counter + 1) c.m1_name ∙ length-set e.nameslist _ _ ∙ v.names;
  results = length-set _ (e.entry_counter + 1) _ ∙ length-set e.resultslist _ _ ∙ v.results;
}

-- From valid entries a round writes within both arrays, at places `entry_counter` and
-- `entry_counter + 1`: the two names, and the two results as numbers. The entries are valid again.
pub set_entry_counter-IsValid :
    (stack : List ℕ → List ℕ) (c : Client) (e : Entries)
    → IsValid e
    → (e' : Entries) × (set_entry_counter stack c e ≡ some e')
      × IsValid e'
      × Holds e.entry_counter c.m0_name (atol (read stack c.m0_result)) e'
      × Holds (e.entry_counter + 1) c.m1_name (atol (read stack c.m1_result)) e'
set_entry_counter-IsValid stack c e v =
    let i = e.entry_counter in
    let names : i + 1 < length e.nameslist = omega (arith, v) in
    let results : i + 1 < length e.resultslist = omega (arith, v) in
    (
      after_round stack c e,
      set_entry_counter_lem stack c e v,
      after_round-IsValid stack c e v,
      record {
        named = first_written e.nameslist i c.m0_name c.m1_name names;
        timed = first_written e.resultslist i _ _ results;
      },
      record {
        named = second_written e.nameslist i c.m0_name c.m1_name names;
        timed = second_written e.resultslist i _ _ results;
      },
    )
