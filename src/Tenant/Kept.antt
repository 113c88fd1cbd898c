-- ===== src/Tenant/Kept.antt =====
-- What `configure_group` of lib/libkvm/tenant.cpp keeps of a group, key by key.
use libvmod_tinykvm.Common.{
  ℕ, ◌*◌, ◌%◌, ◌≡◌, inl, inr, Bool, true, false, not, ◌&&◌, Option, some, [], Str, codes, ltb, ◌==◌,
  if◌then◌else◌, refl, arith,
}
use libvmod_tinykvm.Tenant.Group.{TenantGroup, Warmup}
use libvmod_tinykvm.Tenant.Json.{Json, Environment}
use libvmod_tinykvm.Tenant.Outcome.{
  Out, done, fail, converted, and_then, for_each, server_without_port, server_shape,
  websocket_without_port, websocket_shape, warmup_shape,
}
use libvmod_tinykvm.Tenant.Values.{Built, threw, built, path_of, download_of, strings}
use libvmod_tinykvm.Tenant.Remapping.{add_remapping, add_remapping_lem}
use libvmod_tinykvm.Tenant.Services.{
  assign, server, websocket_server, warmup, server_target, server_address, server_systems,
  websocket_port, websocket_address, websocket_systems, warmup_requests, warmup_member,
  warmup_header, warmup_headers, change_warmup, set_exact, set_url, set_method, warmup_end,
  warmup_target, warmup_count, warmup_members, start_warmup, set_server_port, set_epoll_systems,
  set_ws_server_port, set_ws_server_address, set_websocket_systems, set_num_requests,
  set_server_address,
}
use libvmod_tinykvm.Tenant.Configure.{
  check_arena, concurrency, hugepage_arena_size, request_hugepages, remappings, allowed_paths,
  download, main_arguments, environment,
}
use libvmod_tinykvm.Tenant.After.{
  All-append_last, Gives, After, After-if, After-converted, After-stored, After-and_then,
  After-for_each,
}
use libvmod_tinykvm.Tenant.Sound.{IsPath, IsMapping, IsArena, IsKept, IsConfigured, path_of-IsPath}

Gives-Unit : {A : Type 0} (m : Built A) → Gives (λ _. Unit {0}) m
Gives-Unit (threw e) = tt
Gives-Unit (built a) = tt

module _ {J F : Type 0} (json : Json J F) (env : Environment) (g0 : TenantGroup F) where
  open json use {
    is_array, is_object, size, elements, items, contains, member, get_bool, get_float, get_u16,
    get_u32, get_u64, get_string,
  }

  abbrev pub Ends : Out F → Type 0
  Ends = After (IsKept g0) (IsConfigured g0)

  pub Ends-if : (b : Bool) (o p : Out F) → Ends o → Ends p → Ends (if b then o else p)
  Ends-if = After-if (IsKept g0) (IsConfigured g0)

  pub Ends-test :
      (b : Bool) (o p : Out F)
      → (b ≡ true → Ends o)
      → (b ≡ false → Ends p)
      → Ends (if b then o else p)
  Ends-test true o p g h = g refl
  Ends-test false o p g h = h refl

  pub Ends-converted :
      {A : Type 0} (g : TenantGroup F) (a : Option A) (next : A → Out F)
      → IsConfigured g0 g
      → ((a : A) → Ends (next a))
      → Ends (converted g a next)
  Ends-converted g a next s h = After-converted (IsKept g0) (IsConfigured g0) g a next s.0 h

  pub Ends-assign :
      {A : Type 0} (g : TenantGroup F) (v : J) (key : Str) (get : J → Option A)
      (set : TenantGroup F → A → TenantGroup F)
      → IsConfigured g0 g
      → ((a : A) → IsConfigured g0 (set g a))
      → Ends (assign json g v key get set)
  unfolding assign
  Ends-assign g v key get set s h =
      Ends-converted g (member v key) _ s (λ m. Ends-converted g (get m) _ s h)

  pub Ends-check_arena :
      (n : ℕ) (g : TenantGroup F)
      → IsKept g0 g
      → (IsArena n → IsConfigured g0 g)
      → Ends (check_arena n g)
  Ends-check_arena n g k h =
      Ends-test (ltb n 0x200000 && not (n == 0)) _ _ (λ _. k)
        (λ _.
          Ends-test (ltb (512 * 1024 * 1024 * 1024) n) _ _ (λ _. k)
            (λ a.
              Ends-test (not (n % 0x200000 == 0)) _ _ (λ _. k)
                (λ b. h (ground (arith, b), ground (arith, a)))))

  pub Ends-concurrency :
      (g : TenantGroup F) (v : J) → IsConfigured g0 g → Ends (concurrency json env g v)
  unfolding concurrency
  Ends-concurrency g v s =
      Ends-converted g (get_u64 v) _ s
        (λ n. Ends-test (ltb 255 n) _ _ (λ _. s.0) (λ a. (s.0, (ground (arith, a), s.1.1, s.1.2))))

  pub Ends-hugepage_arena_size :
      (g : TenantGroup F) (v : J) → IsConfigured g0 g → Ends (hugepage_arena_size json env g v)
  unfolding hugepage_arena_size
  Ends-hugepage_arena_size g v s = Ends-converted g (get_u32 v) _ s (λ mb.
      After-and_then (IsKept g0) (IsConfigured g0) _ _
        (Ends-check_arena (mb * 1048576) (record g { hugepage_arena_size = mb * 1048576 }) s.0
          (λ a. (s.0, (s.1.0, a, s.1.2))))
        (λ h t. t))

  pub Ends-request_hugepages :
      (g : TenantGroup F) (v : J) → IsConfigured g0 g → Ends (request_hugepages json env g v)
  unfolding request_hugepages
  Ends-request_hugepages g v s = Ends-converted g (get_u32 v) _ s (λ mb.
      Ends-check_arena (mb * 1048576) (record g { hugepage_requests_arena = mb * 1048576 }) s.0
        (λ a. (s.0, (s.1.0, s.1.1, a))))

  pub Ends-add_remapping :
      (key : Str) (g : TenantGroup F) (v : J)
      → IsConfigured g0 g
      → Ends (add_remapping json env g key v)
  Ends-add_remapping key g v s = elim (add_remapping_lem json env g key v) [
    | inl (e, t) ↦ rw t s.0
    | inr (r, i, t) ↦ rw t (
      (
        s.0.0,
        s.0.1,
        s.0.2,
        s.0.3,
        s.0.4,
        s.0.5,
        All-append_last IsMapping g.vmem_remappings r s.0.6 (i.above, i.whole),
      ),
      s.1,
    )
  ]

  pub Ends-remappings :
      (key : Str) (g : TenantGroup F) (v : J)
      → IsConfigured g0 g
      → Ends (remappings json env g key v)
  unfolding remappings
  Ends-remappings key g v s =
      Ends-if (is_array v && (size v == 2)) _ _ (Ends-add_remapping key g v s) (
        Ends-if (is_object v) _ _
          (After-for_each (IsKept g0) (IsConfigured g0) (items v) _ g s
            (λ h item t. Ends-add_remapping key h item.1 t))
          s.0)

  pub Ends-allowed_paths :
      (g : TenantGroup F) (v : J) → IsConfigured g0 g → Ends (allowed_paths json env g v)
  unfolding allowed_paths
  Ends-allowed_paths g v s = Ends-if (not (is_array v)) _ _ s.0 (
      After-for_each (IsKept g0) (IsConfigured g0) (elements v) _ g s (λ h item t.
        After-stored (IsKept g0) (IsConfigured g0) IsPath h (path_of json env item) _ t.0
          (path_of-IsPath json env item)
          (λ p q. (
            (
              t.0.0,
              t.0.1,
              t.0.2,
              t.0.3,
              t.0.4,
              All-append_last IsPath h.allowed_paths p t.0.5 q,
              t.0.6,
            ),
            t.1,
          ))))

  pub Ends-download : (g : TenantGroup F) (v : J) → IsConfigured g0 g → Ends (download json env g v)
  unfolding download
  Ends-download g v s = Ends-if (not (is_array v)) _ _ s.0 (
      After-for_each (IsKept g0) (IsConfigured g0) (elements v) _ g s (λ h item t.
        After-stored (IsKept g0) (IsConfigured g0) (λ _. Unit {0}) h (download_of json env item) _
          t.0 (Gives-Unit (download_of json env item)) (λ d _. t)))

  pub Ends-main_arguments :
      (g : TenantGroup F) (v : J) → IsConfigured g0 g → Ends (main_arguments json env g v)
  unfolding main_arguments
  Ends-main_arguments g v s =
      After-for_each (IsKept g0) (IsConfigured g0) (elements v) _
        (record g { main_arguments = some [] }) s
        (λ h item t. Ends-converted h (get_string item) _ t (λ _. t))

  pub Ends-environment :
      (g : TenantGroup F) (v : J) → IsConfigured g0 g → Ends (environment json env g v)
  unfolding environment
  Ends-environment g v s =
      Ends-if (is_array v) _ _
        (After-stored (IsKept g0) (IsConfigured g0) (λ _. Unit {0}) g
          (strings json env (elements v)) _ s.0 (Gives-Unit (strings json env (elements v)))
          (λ l _. s))
        s.0

  pub Ends-and_then :
      (o : Out F) (next : TenantGroup F → Out F)
      → Ends o
      → ((g : TenantGroup F) → IsConfigured g0 g → Ends (next g))
      → Ends (and_then o next)
  Ends-and_then = After-and_then (IsKept g0) (IsConfigured g0)

  pub Ends-server_target :
      (g : TenantGroup F) (v : J) → IsConfigured g0 g → Ends (server_target json g v)
  unfolding server_target
  Ends-server_target g v s =
      Ends-if (contains v (codes "port"))
        (assign json g v (codes "port") get_u16 (set_server_port json))
        (if contains v (codes "path")
          then assign json (set_server_port json g 0) v (codes "path") get_string
              (set_server_address json)
          else fail g server_without_port)
        (Ends-assign g v (codes "port") get_u16 (set_server_port json) s (λ _. s))
        (Ends-if (contains v (codes "path"))
          (assign json (set_server_port json g 0) v (codes "path") get_string
            (set_server_address json))
          (fail g server_without_port)
          (Ends-assign (set_server_port json g 0) v (codes "path") get_string
            (set_server_address json) s (λ _. s))
          s.0)

  pub Ends-server_address :
      (v : J) (g : TenantGroup F) → IsConfigured g0 g → Ends (server_address json v g)
  unfolding server_address
  Ends-server_address v g s =
      Ends-if (contains v (codes "address"))
        (assign json g v (codes "address") get_string (set_server_address json)) (done g)
        (Ends-assign g v (codes "address") get_string (set_server_address json) s (λ _. s)) s

  pub Ends-server_systems :
      (v : J) (g : TenantGroup F) → IsConfigured g0 g → Ends (server_systems json v g)
  unfolding server_systems
  Ends-server_systems v g s =
      Ends-if (contains v (codes "systems"))
        (assign json g v (codes "systems") get_u16 (set_epoll_systems json))
        (done (set_epoll_systems json g 1))
        (Ends-assign g v (codes "systems") get_u16 (set_epoll_systems json) s (λ _. s)) s

  pub Ends-server : (g : TenantGroup F) (v : J) → IsConfigured g0 g → Ends (server json g v)
  unfolding server
  Ends-server g v s =
      Ends-if (is_object v)
        (and_then (and_then (server_target json g v) (server_address json v))
          (server_systems json v))
        (fail g server_shape)
        (Ends-and_then (and_then (server_target json g v) (server_address json v))
          (server_systems json v)
          (Ends-and_then (server_target json g v) (server_address json v) (Ends-server_target g v s)
            (Ends-server_address v))
          (Ends-server_systems v))
        s.0

  pub Ends-websocket_port :
      (g : TenantGroup F) (v : J) → IsConfigured g0 g → Ends (websocket_port json g v)
  unfolding websocket_port
  Ends-websocket_port g v s =
      Ends-if (contains v (codes "port"))
        (assign json g v (codes "port") get_u16 (set_ws_server_port json))
        (fail g websocket_without_port)
        (Ends-assign g v (codes "port") get_u16 (set_ws_server_port json) s (λ _. s)) s.0

  pub Ends-websocket_address :
      (v : J) (g : TenantGroup F) → IsConfigured g0 g → Ends (websocket_address json v g)
  unfolding websocket_address
  Ends-websocket_address v g s =
      Ends-if (contains v (codes "address"))
        (assign json g v (codes "address") get_string (set_ws_server_address json)) (done g)
        (Ends-assign g v (codes "address") get_string (set_ws_server_address json) s (λ _. s)) s

  pub Ends-websocket_systems :
      (v : J) (g : TenantGroup F) → IsConfigured g0 g → Ends (websocket_systems json v g)
  unfolding websocket_systems
  Ends-websocket_systems v g s =
      Ends-if (contains v (codes "systems"))
        (assign json g v (codes "systems") get_u16 (set_websocket_systems json))
        (done (set_websocket_systems json g 1))
        (Ends-assign g v (codes "systems") get_u16 (set_websocket_systems json) s (λ _. s)) s

  pub Ends-websocket_server :
      (g : TenantGroup F) (v : J) → IsConfigured g0 g → Ends (websocket_server json g v)
  unfolding websocket_server
  Ends-websocket_server g v s =
      Ends-if (is_object v)
        (and_then (and_then (websocket_port json g v) (websocket_address json v))
          (websocket_systems json v))
        (fail g websocket_shape)
        (Ends-and_then (and_then (websocket_port json g v) (websocket_address json v))
          (websocket_systems json v)
          (Ends-and_then (websocket_port json g v) (websocket_address json v)
            (Ends-websocket_port g v s) (Ends-websocket_address v))
          (Ends-websocket_systems v))
        s.0

  pub Ends-warmup_member :
      {A : Type 0} (v : J) (key : Str) (get : J → Option A) (set : A → Warmup → Warmup)
      (g : TenantGroup F)
      → IsConfigured g0 g
      → Ends (warmup_member json v key get set g)
  unfolding warmup_member
  Ends-warmup_member v key get set g s =
      Ends-if (contains v key) (assign json g v key get (λ g a. change_warmup json g (set a)))
        (done g) (Ends-assign g v key get (λ g a. change_warmup json g (set a)) s (λ _. s)) s

  pub Ends-warmup_requests :
      (v : J) (g : TenantGroup F) → IsConfigured g0 g → Ends (warmup_requests json v g)
  unfolding warmup_requests
  Ends-warmup_requests v g s =
      Ends-if (contains v (codes "num_requests"))
        (assign json g v (codes "num_requests") get_u16 (set_num_requests json))
        (done (set_num_requests json g 20))
        (Ends-assign g v (codes "num_requests") get_u16 (set_num_requests json) s (λ _. s)) s

  pub Ends-warmup_header :
      (g : TenantGroup F) (v : J) → IsConfigured g0 g → Ends (warmup_header json g v)
  unfolding warmup_header
  Ends-warmup_header g v s = Ends-converted g (get_string v) _ s (λ _. s)

  pub Ends-warmup_headers :
      (v : J) (g : TenantGroup F) → IsConfigured g0 g → Ends (warmup_headers json v g)
  unfolding warmup_headers
  Ends-warmup_headers v g s =
      Ends-if (contains v (codes "headers"))
        (converted g (member v (codes "headers"))
          (λ headers. for_each (elements headers) (warmup_header json) g))
        (done g)
        (Ends-converted g (member v (codes "headers"))
          (λ headers. for_each (elements headers) (warmup_header json) g) s
          (λ headers.
            After-for_each (IsKept g0) (IsConfigured g0) (elements headers) (warmup_header json) g s
              Ends-warmup_header))
        s

  pub Ends-warmup_end : (v : J) (g : TenantGroup F) → IsConfigured g0 g → Ends (warmup_end json v g)
  unfolding warmup_end
  Ends-warmup_end v g s =
      Ends-and_then (warmup_member json v (codes "method") get_string set_method g)
        (warmup_headers json v) (Ends-warmup_member v (codes "method") get_string set_method g s)
        (Ends-warmup_headers v)

  pub Ends-warmup_target :
      (v : J) (g : TenantGroup F) → IsConfigured g0 g → Ends (warmup_target json v g)
  unfolding warmup_target
  Ends-warmup_target v g s =
      Ends-and_then (warmup_member json v (codes "url") get_string set_url g) (warmup_end json v)
        (Ends-warmup_member v (codes "url") get_string set_url g s) (Ends-warmup_end v)

  pub Ends-warmup_count :
      (v : J) (g : TenantGroup F) → IsConfigured g0 g → Ends (warmup_count json v g)
  unfolding warmup_count
  Ends-warmup_count v g s =
      Ends-and_then (warmup_member json v (codes "exact") get_bool set_exact g)
        (warmup_target json v) (Ends-warmup_member v (codes "exact") get_bool set_exact g s)
        (Ends-warmup_target v)

  pub Ends-warmup_members :
      (v : J) (g : TenantGroup F) → IsConfigured g0 g → Ends (warmup_members json v g)
  unfolding warmup_members
  Ends-warmup_members v g s =
      Ends-and_then (warmup_requests json v g) (warmup_count json v) (Ends-warmup_requests v g s)
        (Ends-warmup_count v)

  pub Ends-warmup : (g : TenantGroup F) (v : J) → IsConfigured g0 g → Ends (warmup json g v)
  unfolding warmup
  Ends-warmup g v s =
      Ends-if (is_object v) (warmup_members json v (start_warmup json g)) (fail g warmup_shape)
        (Ends-warmup_members v (start_warmup json g) s) s.0
