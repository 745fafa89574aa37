-- ===== src/Examples/Parsing.antt =====
-- A stanza read from its bytes, and answered.
use mukite.Common.{
  arith, ◌≡◌, refl, some, none, lit, Bytes, [], ok, Meets, length, ltb, if◌then◌else◌, bytes_eq,
}
use mukite.Xmlfsm.{Span, xmlfsm_node_name, xmlfsm_next_attr}
use mukite.Jid.{jid_struct}
use mukite.Packet.{IncomingPacket, BuilderPacket, worker_bounce, stanza_message}
use mukite.Packet.Parse.{
  packet_parse, name_by_word, take_attrs, take_attr, set_from, set_to, set_type, type_by_value,
  check_inner, is_routable,
}
use mukite.Packet.Accepted.{OnSome}
use mukite.Packet.Deliverable.{IsDeliverable, packet_parse-IsDeliverable}
use mukite.Builder.Tree.{print}
use mukite.Builder.Reference.{error_tree}
use mukite.Builder.StanzaTree.{stanza_tree}
use mukite.Worker.{worker_send}
use mukite.Worker.Send.{from_component}
use mukite.Worker.Bounce.{worker_bounce-worker_send}
use mukite.Examples.Builder.{noon, thread, conflict}

abbrev hello : Bytes
hello = lit "<message from='a@b/c' to='den@r/Bob' type='chat'><body>hi</body></message>"

abbrev whole : Span
whole = record { start = 0; stop = length hello }

packet_parse-IsDeliverable_example : Meets (OnSome (IsDeliverable hello)) (packet_parse hello whole)
packet_parse-IsDeliverable_example = packet_parse-IsDeliverable hello whole

abbrev hello_packet : IncomingPacket
hello_packet = record {
  mem = hello;
  name = stanza_message;
  type = 1;
  real_from = record { node = some (lit "a"); host = some (lit "b"); resource = some (lit "c") };
  proxy_to = record { node = some (lit "den"); host = some (lit "r"); resource = some (lit "Bob") };
  header = some (record { start = 8; stop = 48 });
  inner = some (record { start = 49; stop = 64 });
  from_attr =
      some (record {
        name = record { start = 9; stop = 13 };
        value = record { start = 15; stop = 20 };
      });
  to_attr = some (record {
    name = record { start = 22; stop = 24 };
    value = record { start = 26; stop = 35 };
  });
  id_attr = none;
  type_attr = some (record {
    name = record { start = 37; stop = 41 };
    value = record { start = 43; stop = 47 };
  });
  muc = none;
  muc_user = none;
}

hello_parsed : packet_parse hello whole ≡ ok (some hello_packet)
unfolding packet_parse xmlfsm_node_name name_by_word bytes_eq take_attrs xmlfsm_next_attr take_attr
    set_from jid_struct set_to set_type type_by_value check_inner is_routable
hello_parsed = refl

worker_bounce-worker_send_example :
    (egress : BuilderPacket) × (worker_bounce hello_packet conflict (some (lit "den")) ≡ ok egress)
    × (egress.name ≡ hello_packet.name)
    × (worker_send noon thread egress ≡ (
        let doc = print (stanza_tree (from_component thread egress) (error_tree conflict)) [] in
        ok (if ltb 1000 (length doc) then none else some doc)))
worker_bounce-worker_send_example =
    worker_bounce-worker_send noon thread hello whole hello_packet conflict (some (lit "den"))
      hello_parsed (omega arith)
