-- ===== src/Wire/Value.antt =====
-- JSON values, and what encoding/json and the codes of time.Time do between values and texts.
use carbmq_core.Base.{ℤ, String, Bool, List, [], ◌∷◌, Option, none, some, ◌≡◌, refl, ap}
use carbmq_core.Qtt.Packet.{RawMessage, Time}

-- An integer's literal is `num`; `decimal` is any other number, by its literal. A member of an object
-- has its name, the text of its value as it is written, and the value.
mutual
  pub data Json : Type 0 where
    null : Json
    bool : Bool → Json
    num : ℤ → Json
    decimal : String → Json
    str : String → Json
    arr : Items → Json
    obj : Members → Json

  pub data Items : Type 0 where
    nil : Items
    cons : Json → Items → Items

  pub data Members : Type 0 where
    end : Members
    member : String → RawMessage → Json → Members → Members

-- A member's value, with the text that it is written in.
pub record Source : Type 0 where
  pub text : RawMessage
  pub value : Json

unfoldable pub items : List Json → Items
items [] = nil
items (j ∷ js) = cons j (items js)

unfoldable pub listed_items : Items → List Json
listed_items nil = []
listed_items (cons j js) = j ∷ listed_items js

unfoldable pub members : List (String × Source) → Members
members [] = end
members (m ∷ ms) = member m.0 m.1.text m.1.value (members ms)

unfoldable pub listed : Members → List (String × Source)
listed end = []
listed (member name text value ms) = (name, record { text = text; value = value }) ∷ listed ms

pub listed_items-items : (js : List Json) → listed_items (items js) ≡ js
unfolding items listed_items
listed_items-items [] = refl
listed_items-items (j ∷ js) = ap (◌∷◌ j) (listed_items-items js)

pub listed-members : (ms : List (String × Source)) → listed (members ms) ≡ ms
unfolding members listed
listed-members [] = refl
listed-members (m ∷ ms) = ap (◌∷◌ m) (listed-members ms)

-- The text layer. `parse` reads the text of one value, `none` if it is not valid JSON; `compact` is the
-- text of a value without the white space between its parts, as encoding/json writes a `RawMessage`,
-- `none` if it is not valid JSON; `print` is the text that encoding/json writes of a value of its own; `format_time` and `parse_time` are RFC 3339, the former `none` for a year
-- past 9999; `fold_name` folds the letters' case.
pub record TextLayer : Type 0 where
  pub parse : RawMessage → Option Json
  pub compact : RawMessage → Option RawMessage
  pub print : Json → RawMessage
  pub format_time : Time → Option String
  pub parse_time : String → Option Time
  pub fold_name : String → String

-- a value of encoding/json's own, with its text
abbrev pub written : TextLayer → Json → Source
written lib value = record { text = lib.print value; value = value }

infixl 5 ◌>>=◌
abbrev pub ◌>>=◌ : {A B : Type 0} → Option A → (A → Option B) → Option B
none >>= f = none
some a >>= f = f a

-- Both parts of a bind that gives a result give one.
pub >>=-eq-some :
    {A B : Type 0} (o : Option A) (f : A → Option B) (b : B)
    → (o >>= f) ≡ some b
    → (a : A) × (o ≡ some a) × (f a ≡ some b)
>>=-eq-some none f b h = absurd cc
>>=-eq-some (some a) f b h = (a, refl, h)
