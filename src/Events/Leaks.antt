-- ===== src/Events/Leaks.antt =====
-- server/service/event.go: what a stream leaves behind, with other goroutines between its turns.
use unblink.Base.{nat_eq, string_eq}
use unblink.Events.Joined.{Joined}
