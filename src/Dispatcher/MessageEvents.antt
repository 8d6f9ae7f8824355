-- ===== src/Dispatcher/MessageEvents.antt =====
-- The events of messages in ddht/v5_1/dispatcher.py.
use ddht.Prelude.{◌≡◌, refl, ◌⊎◌, inl, sym, ◌∙◌, ap, inr}

-- the message types of ddht/v5_1/messages.py, by their numbers from 1
pub data MessageType : Type 0 where
  ping pong find_nodes found_nodes talk_request talk_response register_topic ticket
        registration_confirmation topic_query :
      MessageType

-- the events of messages, by the attributes of `Events`
pub data MessageEvent : Type 0 where
  ping_sent pong_sent find_nodes_sent found_nodes_sent talk_request_sent talk_response_sent
        register_topic_sent ticket_sent registration_confirmation_sent topic_query_sent :
      MessageEvent
  ping_received pong_received find_nodes_received found_nodes_received talk_request_received
        talk_response_received register_topic_received ticket_received
        registration_confirmation_received topic_query_received :
      MessageEvent

unfoldable pub get_event_for_outbound_message : MessageType → MessageEvent
get_event_for_outbound_message ping = ping_sent
get_event_for_outbound_message pong = pong_sent
get_event_for_outbound_message find_nodes = find_nodes_sent
get_event_for_outbound_message found_nodes = found_nodes_sent
get_event_for_outbound_message talk_request = talk_request_sent
get_event_for_outbound_message talk_response = talk_response_sent
get_event_for_outbound_message register_topic = register_topic_sent
get_event_for_outbound_message ticket = ticket_sent
get_event_for_outbound_message registration_confirmation = registration_confirmation_sent
get_event_for_outbound_message topic_query = topic_query_sent

unfoldable pub get_event_for_inbound_message : MessageType → MessageEvent
get_event_for_inbound_message ping = ping_received
get_event_for_inbound_message pong = pong_received
get_event_for_inbound_message find_nodes = find_nodes_received
get_event_for_inbound_message found_nodes = found_nodes_received
get_event_for_inbound_message talk_request = talk_request_received
get_event_for_inbound_message talk_response = talk_response_received
get_event_for_inbound_message register_topic = register_topic_received
get_event_for_inbound_message ticket = ticket_received
get_event_for_inbound_message registration_confirmation = registration_confirmation_received
get_event_for_inbound_message topic_query = topic_query_received

-- the type that an event is for
abbrev type_of : MessageEvent → MessageType
type_of ping_sent = ping
type_of pong_sent = pong
type_of find_nodes_sent = find_nodes
type_of found_nodes_sent = found_nodes
type_of talk_request_sent = talk_request
type_of talk_response_sent = talk_response
type_of register_topic_sent = register_topic
type_of ticket_sent = ticket
type_of registration_confirmation_sent = registration_confirmation
type_of topic_query_sent = topic_query
type_of ping_received = ping
type_of pong_received = pong
type_of find_nodes_received = find_nodes
type_of found_nodes_received = found_nodes
type_of talk_request_received = talk_request
type_of talk_response_received = talk_response
type_of register_topic_received = register_topic
type_of ticket_received = ticket
type_of registration_confirmation_received = registration_confirmation
type_of topic_query_received = topic_query

type_of-outbound : (t : MessageType) → type_of (get_event_for_outbound_message t) ≡ t
unfolding get_event_for_outbound_message
type_of-outbound ping = refl
type_of-outbound pong = refl
type_of-outbound find_nodes = refl
type_of-outbound found_nodes = refl
type_of-outbound talk_request = refl
type_of-outbound talk_response = refl
type_of-outbound register_topic = refl
type_of-outbound ticket = refl
type_of-outbound registration_confirmation = refl
type_of-outbound topic_query = refl

type_of-inbound : (t : MessageType) → type_of (get_event_for_inbound_message t) ≡ t
unfolding get_event_for_inbound_message
type_of-inbound ping = refl
type_of-inbound pong = refl
type_of-inbound find_nodes = refl
type_of-inbound found_nodes = refl
type_of-inbound talk_request = refl
type_of-inbound talk_response = refl
type_of-inbound register_topic = refl
type_of-inbound ticket = refl
type_of-inbound registration_confirmation = refl
type_of-inbound topic_query = refl

-- A message type has events of its own: two types that share the event of sending or that of
-- receiving are the same.
pub get_event-injective :
    (t u : MessageType)
    → (get_event_for_outbound_message t ≡ get_event_for_outbound_message u)
      ⊎ (get_event_for_inbound_message t ≡ get_event_for_inbound_message u)
    → t ≡ u
get_event-injective t u (inl h) = sym (type_of-outbound t) ∙ ap type_of h ∙ type_of-outbound u
get_event-injective t u (inr h) = sym (type_of-inbound t) ∙ ap type_of h ∙ type_of-inbound u
