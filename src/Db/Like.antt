-- ===== src/Db/Like.antt =====
-- The operator `LIKE` of SQL, as the query of `GetTelemetry` uses it.
pub mod Plain
use Prim.Native.Char.{code}
use carbmq_core.Base.{
  ℕ, nat_eq, String, Bool, true, false, ◌&&◌, ◌||◌, List, [], ◌∷◌, if◌then◌else◌,
}

-- What a pattern is made of: `%`, `_` and characters, those after a backslash for themselves.
pub data Item : Type 0 where
  many one : Item
  just : ℕ → Item

-- A pattern; the flag says that the character before was a backslash. The database refuses a pattern
-- that ends in a lone backslash.
unfoldable pub items : Bool → String → List Item
items escaped String.[] = []
items true (String.◌∷◌ c p) = just (code c) ∷ items false p
items false (String.◌∷◌ c p) =
    let rest = items false p in
    let escaped = items true p in
    if nat_eq (code c) b'%'
    then many ∷ rest
    else if nat_eq (code c) b'_'
    then one ∷ rest
    else if nat_eq (code c) b'\\'
    then escaped
    else just (code c) ∷ rest

-- Does the test hold of the text or of a part of it that ends it?
unfoldable pub some_suffix : (String → Bool) → String → Bool
some_suffix test String.[] = test ""
some_suffix test (String.◌∷◌ c s) = test (String.◌∷◌ c s) || some_suffix test s

unfoldable pub like_items : List Item → String → Bool
unfolding some_suffix
like_items [] String.[] = true
like_items [] (String.◌∷◌ c s) = false
like_items (many ∷ rest) s = some_suffix (like_items rest) s
like_items (one ∷ rest) String.[] = false
like_items (one ∷ rest) (String.◌∷◌ c s) = like_items rest s
like_items (just n ∷ rest) String.[] = false
like_items (just n ∷ rest) (String.◌∷◌ c s) = nat_eq (code c) n && like_items rest s

-- `text LIKE pattern`
unfoldable pub like : String → String → Bool
unfolding items like_items
like pattern_text s = like_items (items false pattern_text) s
