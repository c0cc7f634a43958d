-- ===== src/Lib.antt =====
-- ReLink-COM, a publish/subscribe protocol over UDP: the C++ core, modelled function by function.
--
-- A node publishes messages as frames, one UDP datagram each. A frame carries a topic id, a sequence number
-- and the payload. Nodes learn of each other by multicast beacons or from the registry daemon rlcore, which
-- also keeps the names and roles of topics; where two nodes cannot reach each other, a relay daemon, or rlcore
-- itself, forwards their frames. Images are cut into chunks, one frame each, and put together again.
--
-- Which file models which part:
--   Base, Base/*      bytes and little-endian fields (memcpy), lists, ordered maps (std::map), conditionals
--   Frame             cpp/include/relink/wire.hpp and frame.hpp: encode_frame, decode_frame
--   Transport         cpp/include/relink/udp_transport.hpp: publish_raw, publish_scattered,
--                     recv_and_dispatch, is_recent_duplicate, get_register_reply
--   Ring              cpp/include/relink/ring_buffer.hpp: RingBuffer
--   Shm               cpp/include/relink/shm_transport.hpp: try_push, try_pop of ShmRing
--   Beacon, TopicIds  cpp/include/relink/beacon.hpp
--   Register          cpp/include/relink/register.hpp: requests and acks
--   Packet            the loops that topic_directory.hpp has three times, for names and both kinds of roles
--   TopicDir, Roles   cpp/include/relink/topic_directory.hpp
--   RelayWire, Relay  cpp/include/relink/relay_wire.hpp and cpp/rlcore/relink_relay.cpp: handle_packet
--   Rlcore            cpp/rlcore/relink_rlcore.cpp: the maps of main and prune_stale; Rlcore/Dispatch has what
--                     the loop does with a datagram
--   Discovery         cpp/include/relink/multicast_discovery.hpp: send_beacon_once, listener_loop, the derivation
--                     of a network's group and port
--   Aes, Gcm, Keys    cpp/include/relink/crypto.hpp: the block cipher, sealing and opening, keys as text
--   TopicHash         cpp/include/relink/topic_hash.hpp
--   Node              cpp/include/relink/relink.hpp: RelinkNode, its names, sockets and declarations; Node/Publish
--                     has publish and publish_raw, Node/Start the checks and groups of ensure_started, Node/Peers the
--                     threads that talk to rlcore and the relay
--   StdMsgs           cpp/include/relink/standard_msgs.hpp, a child for each namespace, and the primitives of wire.hpp
--   MsgSchema         cpp/tools/msg_schema.hpp: the descriptions of the messages and format_message
--   Client            cpp/include/relink/rlcore_client.hpp: register_with_rlcore_on_socket
--   Reassembly        the code that cpp/include/relink/image.hpp and compressed_image.hpp share, and, in
--                     Reassembly/Wire, the publishing and subscribing functions of relink.hpp over it
--   Image             image.hpp, with publish_image and subscribe_image
--   CompressedImage   compressed_image.hpp, with publish_compressed_image and subscribe_compressed_image
--
-- The parts use each other as the code does: Transport sends and decodes frames with Frame; Relay and Rlcore
-- tell frames from control packets with RelayWire; Rlcore answers with the encoders of Register, TopicDir and
-- Roles. Client sends with the encoders of Register what Rlcore decodes, and both seal with Gcm (Client/Key).
-- Node publishes over Transport, takes its peers from acks of Register and its topic ids from TopicHash, and
-- announces names and roles with TopicDir and Roles. Discovery sends and reads with Beacon, and tells packets
-- apart with TopicDir. MsgSchema describes the structs of StdMsgs. Packet takes the bytes of one entry as an
-- interface, Reassembly those of the metadata, and the maps that of their keys.
--
-- How the code is written here:
--   - an unsigned integer of w bits is a natural number with the wrap-around written out, a buffer with its length is
--     the list of its bytes, and an out-parameter is a component of the result;
--   - an error or an early return is a constructor or `none`. In Reassembly `none` of on_chunk is undefined
--     behaviour, an access outside a buffer, and in Client the overflow of an int;
--   - a daemon or socket is a record of its variables. One datagram is one step, which returns the new state
--     and what is sent. The mutexes make each operation one step, so sequences of steps are the interleavings;
--   - the clock is an argument: seconds in Relay, nanoseconds in Rlcore and CompressedImage;
--   - every loop runs over a list or a counter: a loop over blocks of 16 bytes takes (length + 15) / 16 turns.
--     Only decimal texts have fuel, 20 digits, which is enough below 2^64 (MsgSchema/Decimal);
--   - a random nonce is an argument, and what the network does with each attempt of a registration a function.
--
-- Not modelled: sockets, threads, options and log lines; the random source of keys and nonces; the command lines
-- of the daemons; the AF_XDP program, which forwards the frames that Relay also handles; of RelinkNode local IPC,
-- the callback of multicast discovery and the starting of threads; the pauses between beacons; mapping shared
-- memory; bitrate control, which computes on double; of the standard messages Time::now and texts in arrays; the
-- text of a float, which is a parameter of MsgSchema; the command-line tools; the Python package.
pub mod Base
pub mod Frame
pub mod Ring
pub mod TopicIds
pub mod Aes
pub mod Beacon
pub mod Register
pub mod Packet
pub mod TopicDir
pub mod Roles
pub mod RelayWire
pub mod Relay
pub mod Shm
pub mod Transport
pub mod Rlcore
pub mod Reassembly
pub mod Image
pub mod CompressedImage
pub mod Gcm
pub mod Keys
pub mod Discovery
pub mod Client
pub mod TopicHash
pub mod Node
pub mod StdMsgs
pub mod MsgSchema
