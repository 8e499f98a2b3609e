-- ===== src/Db/Devices/Laws.antt =====
-- Registering a device and looking it up.
use carbmq_core.Base.{
  String, false, List, [], ◌∷◌, Option, none, some, if◌then◌else◌, ◌≡◌, ◌≢◌, ◌⊎◌, inl, inr, refl,
  arith, ap, sym, ◌∙◌, ◌==◌, eq_iff, eq_refl, str_eq_of_ne, str_eq-cases,
}
use carbmq_core.Errors.{Result, ok}
use carbmq_core.Qtt.Packet.{Time}
use carbmq_core.Db.Tables.{Device, Tables, Json}
use carbmq_core.Db.Devices.{find_device, upsert_device, returned, register_device, get_device}

find_device-upsert_device :
    (new : Device) (id : String) (rows : List Device)
    → find_device id (upsert_device new rows)
      ≡ (if new.id == id then some (returned new (find_device id rows)) else find_device id rows)
unfolding find_device upsert_device returned
find_device-upsert_device new id [] = ground (arith, eq_iff new.id id)
find_device-upsert_device new id (d ∷ rows) = ground (
  arith,
  find_device-upsert_device new id rows,
  eq_iff d.id new.id,
  eq_iff d.id id,
  eq_iff new.id id,
)

-- the time at which a device was first registered, if it is registered now
abbrev first_registered : Time → Option Device → Time
first_registered now none = now
first_registered now (some old) = old.created_at

abbrev named : Time → (id name : String) → Json → Device
named now id name metadata = record {
  id = id;
  name = if name == "" then id else name;
  metadata = metadata;
  created_at = now;
}

register_ok :
    (now : Time) (id name : String) (metadata : Json) (t : Tables)
    → id ≢ ""
    → let new = named now id name metadata in
      register_device none now id name metadata t ≡ (
        ok (returned new (find_device id t.devices)),
        record t { devices = upsert_device new t.devices },
      )
unfolding register_device
register_ok now id name metadata t h = rw (register_device, str_eq_of_ne id "" h) refl

returned_lem :
    (now : Time) (id name : String) (metadata : Json) (old : Option Device)
    → let d = returned (named now id name metadata) old in
      (d.name ≡ (if name == "" then id else name))
      × (d.metadata ≡ metadata)
      × (d.created_at ≡ first_registered now old)
unfolding returned
returned_lem now id name metadata none = (refl, refl, refl)
returned_lem now id name metadata (some old) = (refl, refl, refl)

get_registered :
    (new : Device) (t : Tables)
    → get_device none new.id (record t { devices = upsert_device new t.devices })
      ≡ ok (returned new (find_device new.id t.devices))
unfolding get_device
get_registered new t =
    ground (arith, find_device-upsert_device new new.id t.devices, eq_refl new.id)

get_other :
    (new : Device) (other : String) (t : Tables)
    → (new.id == other) ≡ false
    → get_device none other (record t { devices = upsert_device new t.devices })
      ≡ get_device none other t
unfolding get_device
get_other new other t h = ground (arith, find_device-upsert_device new other t.devices, h)

-- A device that is registered without a fault, under an id that is not empty, is what `GetDevice`
-- finds then: with the given name, or its id if the name is empty, the given metadata, and the time
-- of its first registration; and no other device is found differently.
get_device-register_device :
    (now : Time) (id name other : String) (metadata : Json) (t : Tables)
    → id ≢ ""
    → let (r, t') = register_device none now id name metadata t in
      ((d : Device) × (r ≡ ok d)
        × (get_device none id t' ≡ ok d)
        × (d.name ≡ (if name == "" then id else name))
        × (d.metadata ≡ metadata)
        × (d.created_at ≡ first_registered now (find_device id t.devices)))
      × ((other ≡ id) ⊎ (get_device none other t' ≡ get_device none other t))
get_device-register_device now id name other metadata t h =
    let new = named now id name metadata in
    let runs = register_ok now id name metadata t h in
    let (its_name, its_metadata, its_time) =
      returned_lem now id name metadata (find_device id t.devices) in
    (
      (
        returned new (find_device id t.devices),
        ap (λ r. r.0) runs,
        ap (λ (r : Result Device × Tables). get_device none id r.1) runs ∙ get_registered new t,
        its_name,
        its_metadata,
        its_time,
      ),
      elim (str_eq-cases id other) [
        | inl (_, e) ↦ inl (sym e)
        | inr (differs, _) ↦ inr (
            ap (λ (r : Result Device × Tables). get_device none other r.1) runs
            ∙ get_other new other t differs)
      ],
    )
