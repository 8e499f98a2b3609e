-- ===== src/Db/Devices.antt =====
-- The statements on `devices` in api/db/store.go.
pub mod Laws
use carbmq_core.Base.{
  String, Bool, true, false, List, [], ◌∷◌, ◌++◌, Option, none, some, if◌then◌else◌, ◌==◌, leb,
}
use carbmq_core.Errors.{
  Error, Result, ok, err, device_id_required, device_not_found, list_devices as list_failed,
}
use carbmq_core.Qtt.Packet.{Time}
use carbmq_core.Db.Tables.{Json, Device, Tables, order_by, unless_fault}

unfoldable pub find_device : String → List Device → Option Device
find_device id [] = none
find_device id (d ∷ rows) = if d.id == id then some d else find_device id rows

-- `ON CONFLICT (id) DO UPDATE SET name, metadata`
unfoldable pub upsert_device : Device → List Device → List Device
upsert_device new [] = new ∷ []
upsert_device new (d ∷ rows) =
    if d.id == new.id
    then record d { name = new.name; metadata = new.metadata } ∷ rows
    else d ∷ upsert_device new rows

-- what `RETURNING` gives for the row that was written
returned : Device → Option Device → Device
returned new none = new
returned new (some old) = record old { name = new.name; metadata = new.metadata }

-- `RegisterDevice`; `now` is the database's `NOW()`. A metadata map that was decoded from JSON can be
-- encoded, and what the database returns can be decoded, so neither step fails.
unfoldable pub register_device :
    Option Error → Time → (id name : String) → Json → Tables → Result Device × Tables
unfolding returned
register_device fault now id name metadata t =
    let new : Device = record {
      id = id;
      name = if name == "" then id else name;
      metadata = metadata;
      created_at = now;
    } in
    if id == "" then (err device_id_required, t) else elim fault [
      | some e ↦ (err e, t)
      | none ↦ (
        ok (returned new (find_device id t.devices)),
        record t { devices = upsert_device new t.devices },
      )
    ]

-- `GetDevice`
unfoldable pub get_device : Option Error → String → Tables → Result Device
get_device (some e) id t = err e
get_device none id t = elim (find_device id t.devices) [
  | none ↦ err (device_not_found id)
  | some d ↦ ok d
]

-- `ORDER BY created_at DESC`
abbrev younger : Device → Device → Bool
younger a b = leb b.created_at a.created_at

-- `ListDevices`
unfoldable pub list_devices : Option Error → Tables → Result (List Device)
list_devices fault t = unless_fault fault list_failed (order_by younger t.devices)
