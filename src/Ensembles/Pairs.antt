-- ===== src/Ensembles/Pairs.antt =====
-- entity/strategies.py and entity/model.py: dicts of parameters as lists of pairs.
use mathlib.Core.List.{append_assoc, append-nil}
use smart_sim.Common.Results.{returned}
use smart_sim.Common.{
  ◌≡◌, refl, sym, ap, true, false, ◌∷◌, [], ◌++◌, List, Text, text_eq, text_eq_iff, arith, All,
  Option, some, map, length, mem_text, ◌||◌,
}
use smart_sim.Common.Dict.{Dict, set, contains}
use smart_sim.Common.Entries.{All-map, All-zip}
use smart_sim.Ensembles.Strategies.{dict_from, dict_zip}
use smart_sim.Ensembles.Choices.{AreDistinct}
use smart_sim.Ensembles.Models.{parse_from, parse_model_parameters}

unfoldable pub pairs : List Text → List Text → Dict Text
pairs [] values = []
pairs (name ∷ names) [] = []
pairs (name ∷ names) (value ∷ values) = (name, value) ∷ pairs names values

-- The values as texts of their own.
abbrev pub as_texts : Dict Text → Dict (Option Text)
as_texts d = map (λ (name, value). (name, some value)) d

set_new : (k v : Text) (d : Dict Text) → contains k d ≡ false → set k v d ≡ d ++ (k, v) ∷ []
unfolding set contains
set_new k v [] h = refl
set_new k v ((j, w) ∷ d) h = ground (arith, set_new k v d)

contains_snoc :
    (j k v : Text) (d : Dict Text) → contains j (d ++ (k, v) ∷ []) ≡ (text_eq k j || contains j d)
unfolding contains
contains_snoc j k v [] = refl
contains_snoc j k v ((i, w) ∷ d) = ground (arith, contains_snoc j k v d)

-- The names are not in the dict.
abbrev Fresh : Dict Text → List Text → Type 0
Fresh d names = All (λ name. contains name d ≡ false) names

absent-All :
    (k : Text) (names : List Text)
    → mem_text k names ≡ false
    → All (λ name. text_eq k name ≡ false) names
unfolding mem_text
absent-All k [] h = tt
absent-All k (name ∷ names) h =
    (ground (arith, text_eq_iff k name, text_eq_iff name k), absent-All k names (ground arith))

Fresh-snoc :
    (k v : Text) (d : Dict Text) (names : List Text)
    → Fresh d names
    → mem_text k names ≡ false
    → Fresh (d ++ (k, v) ∷ []) names
Fresh-snoc k v d names fresh absent =
    All-map (λ name (f, a). ground (arith, f, a, contains_snoc name k v d)) names
      (All-zip (λ name. contains name d ≡ false) (λ name. text_eq k name ≡ false) names fresh
        (absent-All k names absent))

dict_from-pairs :
    (done : Dict Text) (names values : List Text)
    → Fresh done names
    → AreDistinct names
    → dict_from done names values ≡ done ++ pairs names values
unfolding dict_from pairs
dict_from-pairs done [] values fresh distinct = sym (append-nil done)
dict_from-pairs done (name ∷ names) [] fresh distinct = sym (append-nil done)
dict_from-pairs done (name ∷ names) (v ∷ values) fresh distinct = rw (
  set_new name v done fresh.0,
  dict_from-pairs (done ++ (name, v) ∷ []) names values
      (Fresh-snoc name v done names fresh.1 distinct.0) distinct.1,
  append_assoc,
)

parse_from-pairs :
    (done : Dict Text) (names values : List Text)
    → Fresh done names
    → AreDistinct names
    → parse_from done (as_texts (pairs names values)) ≡ returned (done ++ pairs names values)
unfolding parse_from pairs
parse_from-pairs done [] values fresh distinct = ap returned (sym (append-nil done))
parse_from-pairs done (name ∷ names) [] fresh distinct = ap returned (sym (append-nil done))
parse_from-pairs done (name ∷ names) (v ∷ values) fresh distinct = rw (
  parse_from,
  set_new name v done fresh.0,
  parse_from-pairs (done ++ (name, v) ∷ []) names values
      (Fresh-snoc name v done names fresh.1 distinct.0) distinct.1,
  append_assoc,
)

all-Fresh : (names : List Text) → Fresh [] names
unfolding contains
all-Fresh [] = tt
all-Fresh (name ∷ names) = (refl, all-Fresh names)

pub dict_zip-pairs :
    (names values : List Text) → AreDistinct names → dict_zip names values ≡ pairs names values
unfolding dict_zip
dict_zip-pairs names values distinct = dict_from-pairs [] names values (all-Fresh names) distinct

pub parse_model_parameters-dict_zip :
    (names values : List Text)
    → AreDistinct names
    → parse_model_parameters (as_texts (dict_zip names values)) ≡ returned (dict_zip names values)
unfolding parse_model_parameters
parse_model_parameters-dict_zip names values distinct =
    rw (dict_zip-pairs names values distinct)
      (parse_from-pairs [] names values (all-Fresh names) distinct)

-- Each name has a value, if there are as many values as names.
pub contains-pairs :
    (k : Text) (names values : List Text)
    → length values ≡ length names
    → mem_text k names ≡ true
    → contains k (pairs names values) ≡ true
unfolding contains pairs mem_text
contains-pairs k [] values same h = cc
contains-pairs k (name ∷ names) [] same h = absurd (omega arith)
contains-pairs k (name ∷ names) (v ∷ values) same h = ground (arith, contains-pairs k names values)
