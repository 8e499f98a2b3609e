-- ===== src/Db/Driver.antt =====
-- The calls of database/sql in api/db/store.go, on what the driver answers: the opening of the store,
-- and the reading of rows.
pub mod Rows
use carbmq_core.Base.{
  ℕ, String, Bool, true, false, List, [], ◌∷◌, ◌++◌, Option, none, some, length, ◌≡◌,
}
use carbmq_core.Errors.{
  Error, Result, ok, err, open_postgres, ping_postgres, ensure_schema, scan_message, query_messages,
  unmarshal_metadata,
}
use carbmq_core.Qtt.Packet.{Time, RawMessage}
use carbmq_core.Db.Tables.{Json, null, Device, Message}

-- A store whose pool is open, with the limits that it was given.
pub record Pool : Type 0 where
  pub max_open : ℕ
  pub max_idle : ℕ
  pub max_lifetime : ℕ

abbrev pool : Pool
pool = record { max_open = 25; max_idle = 10; max_lifetime = 1_800_000_000_000 }

-- `Open`, on the errors of `sql.Open`, of the ping and of the schema: the store, and whether a pool
-- stays open. Only the schema's error closes it.
unfoldable open_store : (opened pinged schema : Option Error) → Result Pool × Bool
open_store (some e) pinged schema = (err (open_postgres e), false)
open_store none (some e) schema = (err (ping_postgres e), true)
open_store none none (some e) = (err (ensure_schema e), false)
open_store none none none = (ok pool, true)

-- the loop of `queryMessages`, on what `Scan` gives for each row and `Err` gives at the end: the
-- messages and the error that are returned
unfoldable pub scan_messages :
    List (Result Message)
    → (last : Option Error) → (found : List Message) → List Message × Option Error
scan_messages [] last found = (found, last)
scan_messages (err e ∷ rows) last found = ([], some (scan_message e))
scan_messages (ok m ∷ rows) last found = scan_messages rows last (found ++ m ∷ [])

-- `queryMessages`, on the error of the query
unfoldable pub query_rows :
    (queried : Option Error)
    → List (Result Message)
    → (last : Option Error) → List Message × Option Error
query_rows (some e) rows last = ([], some (query_messages e))
query_rows none rows last = scan_messages rows last []

-- The columns of a row of `devices`; `metadata` is the text of a JSON value.
pub record DeviceRow : Type 0 where
  pub id : String
  pub name : String
  pub metadata : RawMessage
  pub created_at : Time

-- a row's metadata; no bytes are no map
device_metadata : (unmarshal : RawMessage → Result Json) → RawMessage → Result Json
device_metadata unmarshal [] = ok null
device_metadata unmarshal (b ∷ bs) = unmarshal (b ∷ bs)

-- `scanDevice`, on what `Scan` gives
unfoldable scan_device : (unmarshal : RawMessage → Result Json) → Result DeviceRow → Result Device
unfolding device_metadata
scan_device unmarshal (err e) = err e
scan_device unmarshal (ok row) = elim (device_metadata unmarshal row.metadata) [
  | err e ↦ err (unmarshal_metadata e)
  | ok metadata ↦
      ok (record { id = row.id; name = row.name; metadata = metadata; created_at = row.created_at })
]

-- the loop of `ListDevices`
unfoldable scan_devices :
    (unmarshal : RawMessage → Result Json)
    → List (Result DeviceRow)
    → (last : Option Error) → (found : List Device) → List Device × Option Error
scan_devices unmarshal [] last found = (found, last)
scan_devices unmarshal (row ∷ rows) last found = elim (scan_device unmarshal row) [
  | err e ↦ ([], some e)
  | ok device ↦ scan_devices unmarshal rows last (found ++ device ∷ [])
]
