-- ===== src/Senml/Document.antt =====
-- The JSON document that a pack stands for, described without the encoder's commas and braces:
-- members and objects joined by commas.
use mathlib.Core.List.{append_assoc, append-nil}
use team.Prelude.{ℕ, ◌≡◌, refl, ◌∙◌, sym, ap, Option, none, some, List, [], ◌∷◌, ◌++◌, map}
use team.Prelude.Text.{codes}
use team.Senml.{BaseInfo, SenmlRecord, Pack}
use team.Senml.Draft.{base_members, members}

-- Texts with commas between them.
unfoldable pub commas : List (List ℕ) → List ℕ
commas [] = []
commas (m ∷ []) = m
commas (m ∷ n ∷ ms) = m ++ (codes "," ++ commas (n ∷ ms))

unfoldable pub object : List (List ℕ) → List ℕ
object ms = codes "{" ++ (commas ms ++ codes "}")

abbrev pub object_of : SenmlRecord → List ℕ
object_of r = object (members r)

-- The base info joins the first record.
unfoldable pub objects : Option BaseInfo → List SenmlRecord → List (List ℕ)
objects base_info [] = []
objects none (r ∷ records) = object_of r ∷ map object_of records
objects (some b) (r ∷ records) = object (base_members b ++ members r) ∷ map object_of records

unfoldable pub json : Pack → List ℕ
json pack = codes "[" ++ (commas (objects pack.base_info pack.records) ++ codes "]")

-- Texts with a comma after each, and before each.
unfoldable pub ended : List (List ℕ) → List ℕ
ended [] = []
ended (m ∷ ms) = (m ++ codes ",") ++ ended ms

unfoldable pub begun : List (List ℕ) → List ℕ
begun [] = []
begun (m ∷ ms) = codes "," ++ (m ++ begun ms)

pub commas-begun : (m : List ℕ) (ms : List (List ℕ)) → commas (m ∷ ms) ≡ m ++ begun ms
unfolding commas begun
commas-begun m [] = sym (append-nil m)
commas-begun m (n ∷ ms) = rw (commas-begun n ms)

pub ended-begun : (m : List ℕ) (ms : List (List ℕ)) → ended (m ∷ ms) ≡ commas (m ∷ ms) ++ codes ","
unfolding ended commas
ended-begun m [] = append-nil (m ++ codes ",")
ended-begun m (n ∷ ms) = rw (ended-begun n ms) (simp append_assoc)

-- A comma and what is ended is what is begun and a comma.
pub comma-ended : (ms : List (List ℕ)) → codes "," ++ ended ms ≡ begun ms ++ codes ","
unfolding ended begun
comma-ended [] = refl
comma-ended (m ∷ ms) =
    simp append_assoc (ap (λ (t : List ℕ). codes "," ++ (m ++ t)) (comma-ended ms))

pub ended-commas :
    (ms ns : List (List ℕ)) (n : List ℕ) → ended ms ++ commas (n ∷ ns) ≡ commas (ms ++ n ∷ ns)
unfolding ended commas
ended-commas [] ns n = refl
ended-commas (m ∷ []) ns n = simp (append_assoc, append-nil)
ended-commas (m ∷ k ∷ ms) ns n =
    append_assoc (m ++ codes ",") (ended (k ∷ ms)) (commas (n ∷ ns))
    ∙ (append_assoc m (codes ",") (ended (k ∷ ms) ++ commas (n ∷ ns))
        ∙ ap (λ (t : List ℕ). m ++ (codes "," ++ t)) (ended-commas (k ∷ ms) ns n))
