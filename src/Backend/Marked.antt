-- ===== src/Backend/Marked.antt =====
-- The mark for a reset that an exception leaves on its machine: `kvm_backend_call` of
-- lib/libkvm/backend.cpp, then `vm_free_function` of lib/libkvm/program_instance.cpp.
use libvmod_tinykvm.Common.{◌≡◌, true}
use libvmod_tinykvm.Backend.{Serving}
use libvmod_tinykvm.Backend.Serve.{Guest, GuestLaws}

module _ {V P : Type 0} (g : Guest V P) (laws : GuestLaws g) where
  abbrev Marked : Serving V P → Type 0
  Marked s = s.mi.reset_needed ≡ true
