-- ===== src/Lib.antt =====
-- Mukite, a component for an XMPP server that keeps multi-user chat rooms (XEP-0045). One thread
-- reads the server's stream into a ring buffer and cuts it into stanzas; worker threads take the
-- stanzas from a queue, parse them (src/packet.c), find the room (src/room/rooms.c), let it route
-- the stanza (src/room/room.c), build the answers (src/builder.c) and hand them to the writer.
--
-- This library models what a room decides: who it lets in, who becomes what, and which packets it
-- sends to whom; how a stanza is parsed and an answer built; and the queue and the ring buffer
-- between the threads. Sockets and memory management stand outside of it. A stanza is routed as one
-- step, from a room and a stanza to a room and the packets sent. Reads through a bad pointer are
-- values of a type of their own, so that a theorem can say that a call faults, or what holds if it
-- does not.
--
-- Files:
-- - Common: numbers, lists and byte strings (memcmp and strncasecmp), and Outcome, the result of C
--   code that may fault, with what it means that something holds of an outcome (Ensures, Meets).
-- - Buffer (xmcomp/src/buffer.h): BufferPtr as an optional byte string, where none is the null pointer.
-- - Utss (src/utss.h): a list with its counter and limit; the counter is a field, as in C.
-- - Jid (src/jid.c): jid_struct, JID_STR, jid_cmp with its modes, jid_set. Jid.Parse has the round
--   trips, Jid.Compare the laws of the comparison.
-- - Acl (src/acl.c): acl_role and the loader, whose lines are an argument.
-- - Participant (src/participant): a participant's address is a number, so that two nodes with equal
--   contents stay apart. Participant.Nodes and Participant.Unique have the lemmas on the list.
-- - Affiliation (src/affiliation): the five lists, affiliationss_add and the search. The search takes
--   an array of pointers, as in C; affiliations_by_cast is the array that room.c passes. Each is about what
--   holds of all five lists, Search about what a call finds of the calls before it.
-- - Xmlfsm (xmcomp/src/xmlfsm.c): the scanner over a block of memory. Xmlfsm.Fuel and Siblings are about
--   the fuel of its loops; Room.Presence.Fuel and Ends, Room.Message.Ends and Room.Config.Fuel use it.
-- - Packet (src/packet.h, src/builder.h, src/worker.c): stanzas in and out, packet_cleanup, which
--   blanks attributes in place, and worker_bounce.
-- - Packet.Parse: packet_parse. Packet.Accepted, Fuel and Deliverable say what it accepts.
-- - Builder (src/builder.c): the pushes into a bounded buffer, Builder.Times the clock of src/timer.c,
--   Builder.RoomParts and Form the parts about a room, Builder.Stanza builder_build. Tree is XML as a
--   tree with its text; Reference, FormTree and StanzaTree say which tree a packet is. Writes
--   and Early are the rules for the pushes, Parts, RoomText, FormText, ContentText and StanzaText apply
--   them, Exact has the theorem. Decimal is about numbers and Statuses about the status codes.
-- - Worker (src/worker.c): worker_send. Worker.Send and Worker.Bounce say what reaches the ring buffer.
-- - Queue (xmcomp/src/queue.c): the stanzas on their way from the reader to the workers. Queue.Refine says
--   which lists the pointers hold. Queue.Threads has the calls of the threads as steps; Keeps and Drains
--   are about every run of them.
-- - Ring (xmcomp/src/ringbuffer.c): the bytes on their way to the network. Contents, Write and Read say what
--   the operations do to them. Ring.Pipe has the calls of the workers and of xmcomp/src/writer.c as
--   steps; Pipe.Writes and Order are about every run of them.
-- - Serializer (src/serializer.h, src/utss.h, xmcomp/src/buffer.c): numbers, buffers and lists in a file. Serializer.Reads
--   and Lists say what is read back.
-- - History (src/history_entry): the list of the last messages.
-- - RoomState (src/room/room.h): the record of a room, its flags and limits.
-- - Room (src/room/room.c): the room, who joins and leaves, the broadcast of presences. Room.Errors has the
--   table of errors, Room.Valid the invariant of the occupants.
-- - Room.Message: route_message. Room.Message.Cases has its
--   branches, and Groupchat, Occupants, Private, History and Ends have its theorems.
-- - Room.Presence: route_presence. Cases has its branches. Its theorems
--   are in Present (the sender is in the room), Join
--   and Admins (newcomers), Occupants (the invariant), Privacy, Shielding and Anonymity (who sees JIDs).
-- - Room.Config: the owner's form. Limits and Forms say what it may change.
-- - Room.Query: route_iq and room_route. Items reads the items of a query, Admin and Owner have the two kinds of
--   changes, Affected tells the occupants. Alike, Changes, Replies and Occupants are about the occupants' invariant,
--   Ranks about who may change a room, Ends, Loops and Termination about the loops.
-- - Room.Kick: the branch of room_route for error stanzas.
-- - Room.Storage: the serializers of src/jid.c, of participants, affiliations and history entries, and of a room. Entries and
--   Restored say what a file gives back, Lost what it does not hold.
-- - Examples: runs at concrete inputs.
--
-- Numbers: sizes, roles, affiliations and times are natural numbers; btoi returns a 32-bit word.
-- ROLE_UNCHANGED and AFFIL_UNCHANGED are the none of an option. The rate limit compares a signed
-- difference; the model moves the subtrahend to the other side. The nesting level of the scanner is
-- the difference of two counters. The loops over attributes and over siblings run on fuel, one more
-- than the size of the block: every round takes at least one byte, and a run that needs more is
-- out_of_fuel.
--
-- A buffer of the builder is its text and its size. The clock is a value: the start, the ticks
-- since then, and the text that the standard library gives for the zone. A time is not negative.
--
-- The operations of the queue, ringbuffer_write and ringbuffer_release_chunk hold a mutex and are
-- one step each; a thread that waits for a condition is left as it is until it calls again.
-- ringbuffer_get_chunk holds none while it reads: its two readings of the amount of data are two
-- steps, between which workers may write. ringbuffer_offline sets one flag. A net_send that fails
-- is a step, and so is the release of its -1 bytes; what the writer does after that, or with a
-- chunk that reaches beyond the end of the buffer, is not followed. ringbuffer_write takes a round
-- for at least one byte, so that the number of bytes bounds its rounds until it returns or waits.
--
-- The part of a stanza between its tags ends where a closing tag of its name would start, which can
-- be before it starts; its size is then negative, and memcpy is given it. worker_bounce and the
-- messages and queries that are passed on fault there; a presence counts the part as empty.
--
-- A file is its bytes, in the layout of a 64-bit machine: an int has four, a pointer and a time_t
-- eight, the lowest first. Writing succeeds. The loader of a list takes a round for an entry and
-- counts two, and stops beyond twice the limit, so that the limit bounds its rounds.
--
-- Not modelled: the table of rooms (src/room/rooms.c) and its file; logging, the thread of the
-- clock, configuration, signals and the network; the build option MEWCAT, which is off; third-party
-- code (uthash, SHA-1). The functions that only free memory have no counterpart.
pub mod Common
pub mod Buffer
pub mod Utss
pub mod Jid
pub mod Acl
pub mod Participant
pub mod Affiliation
pub mod Xmlfsm
pub mod Packet
pub mod Builder
pub mod Worker
pub mod Queue
pub mod Ring
pub mod Serializer
pub mod History
pub mod RoomState
pub mod Room
pub mod Examples
