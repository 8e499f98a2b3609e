-- ===== src/Auth/Acl.antt =====
-- internal/auth/acl/service.go: who may publish and subscribe where.
pub mod Isolation
use carbmq_core.Base.{String, Bool, true, false, Option, none, some, ◌==◌, not, if◌then◌else◌}
use carbmq_core.Base.Text.{◌<>◌, has_suffix}
use carbmq_core.Errors.{
  Error, unknown_role, cannot_publish, cannot_publish_command, cannot_subscribe,
}
use carbmq_core.Auth.Claims.{Claims}
use text.Mathlib.Text.{starts_with}

-- `Authorizer.CanPublish`; `none` is `nil`.
unfoldable pub can_publish : Claims → String → Option Error
can_publish claims topic =
    if claims.role == "admin"
    then none
    else if not (claims.role == "device")
    then some unknown_role
    else if not (starts_with topic ("device/" <> claims.device_id <> "/"))
    then some (cannot_publish claims.device_id topic)
    else if has_suffix topic "/command"
    then some (cannot_publish_command claims.device_id)
    else none

-- `Authorizer.CanSubscribe`
unfoldable pub can_subscribe : Claims → String → Option Error
can_subscribe claims topic =
    if claims.role == "admin"
    then none
    else if not (claims.role == "device")
    then some unknown_role
    else if not (topic == "device/" <> claims.device_id <> "/command")
    then some (cannot_subscribe claims.device_id topic)
    else none
