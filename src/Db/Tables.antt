-- ===== src/Db/Tables.antt =====
-- The rows of the three tables of api/db/store.go, and what its statements use of SQL. A statement
-- either fails as a whole, with an error that the driver gives (`fault`), and changes nothing, or it
-- does what its text says.
pub mod Rows
use carbmq_core.Base.{
  ℕ, ◌≤◌, ℤ, String, Bool, true, false, List, [], ◌∷◌, Option, none, some, if◌then◌else◌, ◌≡◌, refl,
  arith, leb,
}
use carbmq_core.Errors.{Error, Result, ok, err}
use carbmq_core.Qtt.Packet.{Time, RawMessage}

-- A JSON value, as `map[string]any` and a JSONB column hold it; numbers by their text.
mutual
  pub data Json : Type 0 where
    null : Json
    bool : Bool → Json
    number str : String → Json
    arr : Items → Json
    obj : Fields → Json

  pub data Items : Type 0 where
    nil : Items
    cons : Json → Items → Items

  pub data Fields : Type 0 where
    end : Fields
    field : String → Json → Fields → Fields

-- `Device`; a `nil` map of metadata is `null`.
pub record Device : Type 0 where
  pub id : String
  pub name : String
  pub metadata : Json
  pub created_at : Time

pub record Message : Type 0 where
  pub packet_id : String
  pub client_id : String
  pub topic : String
  pub qos : ℤ
  pub payload : RawMessage
  pub packet_type : String
  pub direction : String
  pub timestamp : Time
  pub acknowledged : Bool

pub record OfflineMessage : Type 0 where
  pub packet_id : String
  pub client_id : String
  pub topic : String
  pub qos : ℤ
  pub payload : RawMessage
  pub enqueued_at : Time
  pub available_at : Time

-- The tables that `EnsureSchema` creates, their rows in the order of insertion.
pub record Tables : Type 0 where
  pub devices : List Device
  pub messages : List Message
  pub offline_messages : List OfflineMessage

-- The empty tables of a new database.
abbrev empty_tables : Tables
empty_tables = record { devices = []; messages = []; offline_messages = [] }

-- `json.RawMessage("{}")`
abbrev pub empty_object : RawMessage
empty_object = b'{' ∷ b'}' ∷ []

-- `if len(message.Payload) == 0 { … }`
abbrev pub or_empty_object : RawMessage → RawMessage
or_empty_object [] = empty_object
or_empty_object (b ∷ bs) = b ∷ bs

-- `WHERE`
module _ {A : Type 0} where
  unfoldable pub where_rows : (A → Bool) → List A → List A
  where_rows test [] = []
  where_rows test (x ∷ xs) = let rest = where_rows test xs in if test x then x ∷ rest else rest

  -- `ORDER BY`, by a test that says whether a row may stand before another. SQL leaves the order of
  -- equal rows open; here they keep the order of insertion.
  insert_row : (A → A → Bool) → A → List A → List A
  insert_row before x [] = x ∷ []
  insert_row before x (y ∷ ys) =
      let rest = insert_row before x ys in if before x y then x ∷ y ∷ ys else y ∷ rest

  unfoldable pub order_by : (A → A → Bool) → List A → List A
  unfolding insert_row
  order_by before [] = []
  order_by before (x ∷ xs) = insert_row before x (order_by before xs)

-- A query or statement that the driver may refuse.
abbrev pub unless_fault : {A : Type 0} → Option Error → (Error → Error) → A → Result A
unless_fault none wrapped a = ok a
unless_fault (some e) wrapped a = err (wrapped e)
