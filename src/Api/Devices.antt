-- ===== src/Api/Devices.antt =====
-- api/services/devices.go: what the management API does with devices.
pub mod Access
use carbmq_core.Base.{ℤ, String, List, Option}
use carbmq_core.Errors.{Error, Result, ok, err}
use carbmq_core.Qtt.Packet.{Time}
use carbmq_core.Auth.Jwt.{JwtLib, Service, issue_device_token}
use carbmq_core.Db.Tables.{Json, Device, Message, Tables}
use carbmq_core.Db.Devices.{register_device, get_device, list_devices}
use carbmq_core.Db.Messages.{get_telemetry, list_messages}

-- `DeviceService`; its store is the state that the operations are given.
pub record DeviceService : Type 0 where
  pub auth : Service
  pub token_ttl : ℤ

-- `Register`
unfoldable pub register :
    Option Error → Time → (id name : String) → Json → Tables → Result Device × Tables
register = register_device

-- `IssueToken`, with the fault of its query and its reading of the clock
unfoldable pub issue_token :
    JwtLib → DeviceService → Option Error → Time → String → Tables → Result String
issue_token lib s fault now device_id t = elim (get_device fault device_id t) [
  | err e ↦ err e
  | ok _ ↦ issue_device_token lib s.auth now device_id s.token_ttl
]

-- `List`, `Telemetry` and `Messages`
unfoldable pub list : Option Error → Tables → Result (List Device)
list = list_devices

unfoldable pub telemetry : Option Error → String → ℤ → Tables → Result (List Message)
telemetry = get_telemetry

unfoldable pub messages : Option Error → ℤ → Tables → Result (List Message)
messages = list_messages
