-- ===== src/Registry/Tidy/Ends.antt =====
-- server/service/registry.go: the end of the registry stops every handler.
use unblink.Base.{◌≡◌, true, [], String, All, string_eq}
use unblink.Base.Dict.{Dict, has}
use unblink.Registry.{Handler, ServiceState, Registry}
use unblink.Registry.Tidy.{Tidy}

-- The handlers that run belong to services among the entries.
abbrev Covered : Dict String ServiceState → Registry → Type 0
Covered entries r = All (λ (h : Handler). has h.service_id entries ≡ true) r.live

abbrev no_entries : Dict String ServiceState
no_entries = []
