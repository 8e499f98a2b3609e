-- ===== src/Wire/Maps.antt =====
-- A map comes back from the members that its entries are written as.
use mathlib.Core.List.{append_assoc, append-nil}
use carbmq_core.Base.{
  String, List, [], ◌∷◌, ◌++◌, some, ◌≡◌, refl, sym, ap, ◌∙◌, subst, map, ◌≢◌, All, str_eq_of_ne,
}
use carbmq_core.Base.Assoc.{Entries, insert}
use carbmq_core.Wire.Value.{str, TextLayer, written}
use carbmq_core.Wire.Decode.{fill_map, into_text}

abbrev pub KeysDistinct : Entries String → Type 0
KeysDistinct [] = Unit
KeysDistinct ((key, value) ∷ rest) = All (λ e. key ≢ e.0) rest × KeysDistinct rest

module _ {A : Type 0} (P : A → Type 0) where
  All-middle : (xs : List A) (y : A) (ys : List A) → All P (xs ++ y ∷ ys) → P y
  All-middle [] y ys h = h.0
  All-middle (x ∷ xs) y ys h = All-middle xs y ys h.1

-- a key that is new comes behind the others
insert_new :
    (key value : String) (done rest : Entries String)
    → KeysDistinct (done ++ (key, value) ∷ rest)
    → insert key value done ≡ done ++ (key, value) ∷ []
unfolding insert
insert_new key value [] rest h = refl
insert_new key value ((other, old) ∷ done) rest h =
    rw (str_eq_of_ne other key (All-middle (λ e. other ≢ e.0) done (key, value) rest h.0))
      (ap (◌∷◌ (other, old)) (insert_new key value done rest h.1))

fill_map_from :
    (lib : TextLayer) (done entries : Entries String)
    → KeysDistinct (done ++ entries)
    → fill_map (map (λ e. (e.0, written lib (str e.1))) entries) done ≡ some (done ++ entries)
unfolding fill_map into_text
fill_map_from lib done [] h = ap some (sym (append-nil done))
fill_map_from lib done ((key, value) ∷ rest) h = rw (insert_new key value done rest h) (
    fill_map_from lib (done ++ (key, value) ∷ []) rest
      (subst KeysDistinct (sym (append_assoc done ((key, value) ∷ []) rest)) h)
    ∙ ap some (append_assoc done ((key, value) ∷ []) rest))

pub fill_map-map :
    (lib : TextLayer) (entries : Entries String)
    → KeysDistinct entries
    → fill_map (map (λ e. (e.0, written lib (str e.1))) entries) [] ≡ some entries
fill_map-map lib = fill_map_from lib []
