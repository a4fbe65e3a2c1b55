-- ===== src/EventBus.antt =====
-- src/event_bus.py: the messages that the bus publishes on the channel of a task.
pub mod Subscribe
use cio_run_auto_orchestrato.Prelude.{String, Option, none, some, concat}
use cio_run_auto_orchestrato.Effect.{Action, ◌>>◌}
use cio_run_auto_orchestrato.Models.{TypeAttr, missing, is_none, member, other, CioEvent, Payload}
use cio_run_auto_orchestrato.Redis.{Env}
use cio_run_auto_orchestrato.RedisClient.{World, get_redis, mutate}

unfoldable pub channel : String → String
channel task_id = concat "cio:events:" task_id

abbrev pub done_message : String
done_message = "__DONE__"

abbrev type_name : TypeAttr → String
type_name missing = "info"
type_name is_none = "None"
type_name (member value) = value
type_name (other text) = text

abbrev attr_or : Option String → String → String
attr_or none d = d
attr_or (some s) d = s

unfoldable pub payload_of : CioEvent → Payload
payload_of ev = record {
  event_type = type_name ev.event_type;
  message = attr_or ev.message "";
  metadata = attr_or ev.metadata "{}";
  timestamp = attr_or ev.timestamp "";
}

module _ (e : Env) where
  unfoldable pub publish : String → CioEvent → Action (World e) (Unit {0})
  publish task_id ev = do
    get_redis
    mutate (e.publish (channel task_id) (e.dump_event (payload_of ev)))

  unfoldable pub close : String → Action (World e) (Unit {0})
  close task_id = do get_redis; mutate (e.publish (channel task_id) done_message)
