-- ===== src/Tenant/Services.antt =====
-- The keys of `configure_group` of lib/libkvm/tenant.cpp that are objects: the servers and the
-- warmup. Each member is assigned as it is read, so an exception leaves the earlier ones assigned.
use libvmod_tinykvm.Common.{
  ℕ, Bool, false, ◌||◌, Option, none, some, List, [], ◌∷◌, ◌++◌, Str, codes, str_eq, if◌then◌else◌,
}
use libvmod_tinykvm.Tenant.Group.{TenantGroup, Warmup}
use libvmod_tinykvm.Tenant.Json.{Json}
use libvmod_tinykvm.Tenant.Outcome.{
  server_without_port, server_shape, websocket_without_port, websocket_shape, warmup_shape, Out,
  done, fail, converted, and_then, for_each,
}

-- The member initialisers of `Warmup`.
abbrev pub default_warmup : Warmup
default_warmup = record {
  num_requests = 0;
  exact = false;
  url = codes "/";
  method = codes "GET";
  headers = codes "User-Agent: tinykvm" ∷ [];
}

abbrev has_text : Str → List Str → Bool
has_text s [] = false
has_text s (t ∷ r) = str_eq s t || has_text s r

-- `insert` of a set, in the order of insertion.
abbrev pub insert_header : Str → Warmup → Warmup
insert_header s w = if has_text s w.headers then w else record w { headers = w.headers ++ (s ∷ []) }

abbrev pub set_exact : Bool → Warmup → Warmup
set_exact b w = record w { exact = b }

abbrev pub set_url : Str → Warmup → Warmup
set_url s w = record w { url = s }

abbrev pub set_method : Str → Warmup → Warmup
set_method s w = record w { method = s }

abbrev change : (Warmup → Warmup) → Option Warmup → Option Warmup
change f none = none
change f (some w) = some (f w)

module _ {J F : Type 0} (json : Json J F) where
  open json use {is_object, elements, contains, member, get_bool, get_string, get_u16}

  -- `group.field = obj2["key"]`
  unfoldable pub assign :
      {A : Type 0}
      → TenantGroup F
      → J
      → Str
      → (J → Option A)
      → (TenantGroup F → A → TenantGroup F)
      → Out F
  assign g v key get set =
      converted g (member v key) (λ m. converted g (get m) (λ a. done (set g a)))

  abbrev pub set_server_port : TenantGroup F → ℕ → TenantGroup F
  set_server_port g n = record g { server_port = n }

  abbrev pub set_epoll_systems : TenantGroup F → ℕ → TenantGroup F
  set_epoll_systems g n = record g { epoll_systems = n }

  abbrev pub set_ws_server_port : TenantGroup F → ℕ → TenantGroup F
  set_ws_server_port g n = record g { ws_server_port = n }

  abbrev pub set_ws_server_address : TenantGroup F → Str → TenantGroup F
  set_ws_server_address g s = record g { ws_server_address = s }

  abbrev pub set_websocket_systems : TenantGroup F → ℕ → TenantGroup F
  set_websocket_systems g n = record g { websocket_systems = n }

  abbrev pub set_server_address : TenantGroup F → Str → TenantGroup F
  set_server_address g s = record g { server_address = s }

  unfoldable pub server_target : TenantGroup F → J → Out F
  server_target g v =
      if contains v (codes "port")
      then assign g v (codes "port") get_u16 set_server_port
      else (if contains v (codes "path")
          then assign (record g { server_port = 0 }) v (codes "path") get_string set_server_address
          else fail g server_without_port)

  unfoldable pub server_address : J → TenantGroup F → Out F
  server_address v g =
      if contains v (codes "address")
      then assign g v (codes "address") get_string set_server_address
      else done g

  unfoldable pub server_systems : J → TenantGroup F → Out F
  server_systems v g =
      if contains v (codes "systems")
      then assign g v (codes "systems") get_u16 set_epoll_systems
      else done (record g { epoll_systems = 1 })

  unfoldable pub server : TenantGroup F → J → Out F
  server g v =
      if is_object v
      then and_then (and_then (server_target g v) (server_address v)) (server_systems v)
      else fail g server_shape

  unfoldable pub websocket_port : TenantGroup F → J → Out F
  websocket_port g v =
      if contains v (codes "port")
      then assign g v (codes "port") get_u16 set_ws_server_port
      else fail g websocket_without_port

  unfoldable pub websocket_address : J → TenantGroup F → Out F
  websocket_address v g =
      if contains v (codes "address")
      then assign g v (codes "address") get_string set_ws_server_address
      else done g

  unfoldable pub websocket_systems : J → TenantGroup F → Out F
  websocket_systems v g =
      if contains v (codes "systems")
      then assign g v (codes "systems") get_u16 set_websocket_systems
      else done (record g { websocket_systems = 1 })

  unfoldable pub websocket_server : TenantGroup F → J → Out F
  websocket_server g v =
      if is_object v
      then and_then (and_then (websocket_port g v) (websocket_address v)) (websocket_systems v)
      else fail g websocket_shape

  abbrev pub change_warmup : TenantGroup F → (Warmup → Warmup) → TenantGroup F
  change_warmup g f = record g { warmup = change f g.warmup }

  abbrev pub set_num_requests : TenantGroup F → ℕ → TenantGroup F
  set_num_requests g n = change_warmup g (λ w. record w { num_requests = n })

  unfoldable pub warmup_requests : J → TenantGroup F → Out F
  warmup_requests v g =
      if contains v (codes "num_requests")
      then assign g v (codes "num_requests") get_u16 set_num_requests
      else done (set_num_requests g 20)

  unfoldable pub warmup_member :
      {A : Type 0} → J → Str → (J → Option A) → (A → Warmup → Warmup) → TenantGroup F → Out F
  warmup_member v key get set g =
      if contains v key then assign g v key get (λ g a. change_warmup g (set a)) else done g

  unfoldable pub warmup_header : TenantGroup F → J → Out F
  warmup_header g h = converted g (get_string h) (λ s. done (change_warmup g (insert_header s)))

  unfoldable pub warmup_headers : J → TenantGroup F → Out F
  warmup_headers v g =
      if contains v (codes "headers")
      then converted g (member v (codes "headers"))
          (λ headers. for_each (elements headers) warmup_header g)
      else done g

  -- The members that follow `exact`, `url` and `num_requests`, in their order.
  unfoldable pub warmup_end : J → TenantGroup F → Out F
  warmup_end v g =
      and_then (warmup_member v (codes "method") get_string set_method g) (warmup_headers v)

  unfoldable pub warmup_target : J → TenantGroup F → Out F
  warmup_target v g = and_then (warmup_member v (codes "url") get_string set_url g) (warmup_end v)

  unfoldable pub warmup_count : J → TenantGroup F → Out F
  warmup_count v g =
      and_then (warmup_member v (codes "exact") get_bool set_exact g) (warmup_target v)

  unfoldable pub warmup_members : J → TenantGroup F → Out F
  warmup_members v g = and_then (warmup_requests v g) (warmup_count v)

  abbrev pub start_warmup : TenantGroup F → TenantGroup F
  start_warmup g = record g { warmup = some default_warmup }

  unfoldable pub warmup : TenantGroup F → J → Out F
  warmup g v = if is_object v then warmup_members v (start_warmup g) else fail g warmup_shape
