-- ===== src/Lib.antt =====
-- Unblink connects cameras behind a private network to a server that watches them. A node (node/)
-- dials the server (server/) and carries bridges, byte streams to its services; the server opens a
-- bridge for each service, extracts frames, and has a vision model describe them in batches; events
-- of growing granularity are built from the descriptions; a chat assistant answers from them.
--
-- TimeUtil models server/internal/timeutil/granularity.go, the tiers of the events.
-- Batch models server/webrtc/batch_manager.go: Batch the buffers and the start of a batch
-- (AddFrame, Flush), Batch/Rollup the windows and the recursion up the tiers
-- (maybeBuildHigherGranularity), Batch/Send the whole of sendBatch. An operation is a function on
-- the manager's state; a batch that is sent is a job, and Batch/Exclusion runs callers and jobs in
-- any interleaving (RemoveService, which drops the lock of a batch under way, is not among its
-- steps and stands in Batch/Removal). The recursion has fuel 7, more than the number of tiers above
-- any level.
-- Registry models server/service/registry.go: the registry's state and the handlers that run,
-- Registry/Operations the operations of callers and node events, Registry/Monitor the idle monitor
-- and the reconnection worker. Each holds the registry's lock and is one step.
-- Access models the check of a node in server/internal/ctxutil/context.go and the replies of the
-- Connect handlers, Database the tables of services, SOP procedures, users and their nodes in
-- database/, Auth the accounts and logins of server/auth/service.go and server/auth_interceptor.go,
-- Rpc the calls of server/service/service.go, which read and write these tables and call the
-- registry, and Storage server/service/storage.go, the access to stored frames and clips.
-- Events models server/service/event_broadcaster.go and event.go, with Events/Audience the list of
-- subscribers that a broadcaster stands for; LiveUpdates models the broadcaster and the stream of
-- server/service/live_update.go. Between the turns of a stream, both have the broadcasts and the starts
-- and ends of other streams that other goroutines make. Both use Go's channels of NodeConn/Channels.
-- Chat models server/chat/conversation.go, message.go, ui_block.go and the part of message_send.go
-- before the assistant; Chat/Tables the tables of database/table_chat.go, Chat/Text the texts.
-- Frames models the split of FFmpeg's output in server/webrtc/frame_extractor.go.
-- Clips models the segments of server/webrtc/clip_recorder.go and the clips that are reported.
-- Trim models server/models/trimmer.go and server/models/tokens.go.
-- NodeConn models the bridges, the request correlation and the end of a connection in
-- server/node_conn.go, with Go's channels in NodeConn/Channels, and in NodeConn/Handshake the messages before; Bridge models
-- server/bridge_conn.go, which reads from such a channel; Server models server/server.go and
-- server/node_store.go, in which a connection registers and from which it leaves.
-- Node models node/state.go and node/conn.go, the node's side of a connection: its states, the
-- messages that it handles and sends, and in Node/Run a whole sequence of them; Reconnect models node/reconnect.go, the loop
-- that connects again.
--
-- ServiceUrl models shared/service_url.go, which takes a service's URL apart, with the texts of its
-- ports in ServiceUrl/Decimal; a port is written with fuel 5, which is enough below 100000.
--
-- Go maps are association lists (Base/Dict), whose order is the iteration order of a loop. Times
-- are natural numbers of nanoseconds. A panic is `none`. The model client, package json, the
-- database (but for the tables of Database and Chat), the drawing code, and whether a handler starts are parameters.
--
-- Left out: the heartbeat and the sending of data of the server's connection; the discovery of the
-- node, and the goroutine that forwards a service's data; the assistant's loop, its tools and its
-- titles; the signing of tokens and the hashing of passwords; media, with the copy of go2rtc's rtsp
-- package in server/internal/rtsp; the tables of events and storage; and the web application.
pub mod Base
pub mod TimeUtil
pub mod Batch
pub mod Frames
pub mod Events
pub mod LiveUpdates
pub mod Registry
pub mod Trim
pub mod Bridge
pub mod NodeConn
pub mod Server
pub mod Node
pub mod Reconnect
pub mod Access
pub mod Storage
pub mod Database
pub mod Rpc
pub mod Auth
pub mod Chat
pub mod Clips
pub mod ServiceUrl
