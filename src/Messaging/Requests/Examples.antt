-- ===== src/Messaging/Requests/Examples.antt =====
-- Calls that fail, and replies that come too late.
use zmf.Prelude.{ℕ, ◌≡◌, refl, Bytes, false, none, some, List, [], ◌∷◌}
use zmf.Prelude.Map.{lookup, contains}
use zmf.Data.UniqueId.{ModuleUniqueId}
use zmf.Data.UniqueId.Order.{id_key, number_key}
use zmf.Data.RequestIdentity.{ExternalRequestIdentity, identity_key}
use zmf.Data.Message.{ZmfMessage}
use zmf.Registry.Examples.{sensor}
use zmf.Messaging.State.{Messaging, target_unknown}
use zmf.Messaging.Requests.{
  on_disable, break_promises, send_request, send_reply, handle_reply_received,
}
use zmf.Messaging.Requests.Errors.{IsReplyTo, unknown_target, disabled_lem}
use zmf.Messaging.Examples.{wire, live, message, asker}

nobody_known : (id : ModuleUniqueId) → lookup id live.sockets_req ≡ none
unfolding lookup
nobody_known id = refl

asker-disabled :
    on_disable asker ≡ some (record (break_promises asker) { outstanding_replies = [] })
unfolding on_disable break_promises
asker-disabled = refl

unknown_target_example :
    (m' : Messaging) × (send_request wire sensor.unique_id message live ≡ some (0, m'))
    × (m'.outbox ≡ [])
    × (m'.next_request_id ≡ 1)
    × (m'.answers ≡ (0, target_unknown) ∷ [])
    × ((reply_message : List Bytes)
        → IsReplyTo wire 0 reply_message
        → handle_reply_received wire reply_message m' ≡ some m')
unknown_target_example =
    unknown_target wire sensor.unique_id message live refl (nobody_known sensor.unique_id)

abbrev disabled : Messaging
disabled = record (break_promises asker) { outstanding_replies = [] }

disabled_lem_example :
    ((id : ℕ) → contains id disabled.outstanding_requests ≡ false)
    × ((id : ℕ) (late : List Bytes)
        → IsReplyTo wire id late
        → handle_reply_received wire late disabled ≡ some disabled)
    × ((identity : ExternalRequestIdentity) (msg : ZmfMessage)
        → send_reply wire identity msg disabled ≡ some disabled)
disabled_lem_example = disabled_lem wire asker disabled asker-disabled
