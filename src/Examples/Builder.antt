-- ===== src/Examples/Builder.antt =====
-- Packets printed, and numbers read back.
use mukite.Common.{
  ◌≡◌, refl, arith, [], none, some, lit, ok, ltb, if◌then◌else◌, length, true, false,
}
use mukite.Packet.{
  BuilderPacket, empty_packet, stanza_presence, stanza_error, no_status, XmppError, SysData,
}
use mukite.Buffer.{btoi}
use mukite.Builder.{BuilderBuffer, decimal, push, push_statuses}
use mukite.Builder.Times.{Clock, gmtime, stamp, date_of}
use mukite.Builder.Stanza.{is_stanza, builder_build}
use mukite.Builder.Tree.{print}
use mukite.Builder.Reference.{error_tree}
use mukite.Builder.StanzaTree.{stanza_tree}
use mukite.Builder.Writes.{Adds}
use mukite.Builder.Exact.{builder_build-Adds}
use mukite.Builder.Decimal.{btoi-decimal}
use mukite.Builder.Statuses.{push_statuses-self_codes}
use mukite.Room.{self_codes}
use mukite.Worker.{WorkerThreadStorage, worker_send}
use mukite.Worker.Send.{worker_send-whole, from_component}
use mukite.Examples.Data.{bob, host}
use mukite.Examples.Rooms.{den}

abbrev pub noon : Clock
noon = record { start = 1325419200; ticks = 35; zone = lit "+0300" }

abbrev pub conflict : XmppError
conflict = record {
  code = lit "409";
  type = lit "cancel";
  name = lit "conflict";
  text = lit "Nick is taken";
}

-- An error that goes back to Bob.
abbrev refusal : BuilderPacket
refusal = record empty_packet {
  name = stanza_presence;
  type = stanza_error;
  from_host = some host;
  from_node = some (lit "den");
  to = bob;
  sys_data = SysData.error conflict;
}

abbrev short_buffer : BuilderBuffer
short_buffer = record { text = []; size = 100 }

builder_build-Adds_example :
    Adds
      (builder_build noon refusal)
      (print (stanza_tree refusal (error_tree conflict)) [])
      short_buffer
unfolding is_stanza
builder_build-Adds_example =
    builder_build-Adds noon refusal (error_tree conflict) short_buffer refl refl (omega arith)

abbrev pub thread : WorkerThreadStorage
thread = record { buffer_size = 1000; hostname = some host }

worker_send-whole_example : worker_send noon thread refusal ≡ (
    let doc = print (stanza_tree (from_component thread refusal) (error_tree conflict)) [] in
    ok (if ltb 1000 (length doc) then none else some doc))
unfolding is_stanza
worker_send-whole_example = worker_send-whole noon thread refusal (error_tree conflict) refl refl

btoi-decimal_example : btoi (some (decimal 4294967295)) ≡ 4294967295
btoi-decimal_example = btoi-decimal 4294967295 (omega arith)

minus_one : decimal 4294967295 ≡ lit "-1"
unfolding decimal mukite.Builder.digits_before
minus_one = refl

push_statuses-self_codes_example :
    push_statuses (self_codes den (record no_status { kicked = true }))
    ≡ push (lit "<status code='110'/>")
push_statuses-self_codes_example =
    push_statuses-self_codes den (record no_status { kicked = true }) refl

leap_day : stamp false (gmtime 1330518896) ≡ lit "20120229T12:34:56"
unfolding stamp gmtime date_of mukite.Builder.digits_before
leap_day = refl
