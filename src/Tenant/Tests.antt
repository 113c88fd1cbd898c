-- ===== src/Tenant/Tests.antt =====
-- Runs of the configuration and of the live tenant at concrete inputs.
use libvmod_tinykvm.Common.{
  ℕ, ◌+◌, ◌≡◌, refl, Bool, true, false, Option, none, some, List, [], ◌∷◌, length, get_elem?, Str,
  codes, str_eq, count, take_first,
}
use libvmod_tinykvm.Machine.Tests.{settings, group, config, kvm, machine, no_regex}
use libvmod_tinykvm.Program.Tests.{queue, oks}
use libvmod_tinykvm.Program.Pool.{Pool, reserve_vm, start}
use libvmod_tinykvm.Tenant.Group.{TenantGroup, make_group}
use libvmod_tinykvm.Tenant.Json.{Json, Environment}
use libvmod_tinykvm.Tenant.Remapping.{IsAccepted, add_remapping, add_remapping_lem}
use libvmod_tinykvm.Tenant.After.{After}
use libvmod_tinykvm.Tenant.Live.{
  Files, Programs, TenantInstance, begin_initialize, ref, program_of, reload_program_live,
}
use libvmod_tinykvm.Tenant.Live.Start.{ref-program_of}
use libvmod_tinykvm.Tenant.Live.Reload.{reload_program_live_again}
use libvmod_tinykvm.Tenant.Live.Reserve.{PrivTask, vmreserve, vmreserve_again, vmreserve_stale}

-- The values of a configuration that the runs need.
data Value : Type 0 where
  number : ℕ → Value
  flag : Bool → Value
  text : Str → Value
  texts : List Str → Value

abbrev values : List Str → List Value
values [] = []
values (s ∷ r) = text s ∷ values r

abbrev elements_of : Value → List Value
elements_of (texts l) = values l
elements_of (number n) = []
elements_of (flag b) = []
elements_of (text s) = []

abbrev is_texts : Value → Bool
is_texts (texts l) = true
is_texts (number n) = false
is_texts (flag b) = false
is_texts (text s) = false

abbrev text_of : Value → Option Str
text_of (text s) = some s
text_of (number n) = none
text_of (flag b) = none
text_of (texts l) = none

abbrev is_text : Value → Bool
is_text (text s) = true
is_text (number n) = false
is_text (flag b) = false
is_text (texts l) = false

abbrev number_of : Value → Option ℕ
number_of (number n) = some n
number_of (flag b) = none
number_of (text s) = none
number_of (texts l) = none

abbrev flag_of : Value → Option Bool
flag_of (flag b) = some b
flag_of (number n) = none
flag_of (text s) = none
flag_of (texts l) = none

abbrev json : Json Value ℕ
json = record {
  is_array = is_texts;
  is_object = λ v. false;
  is_string = is_text;
  is_boolean = λ v. false;
  size = λ v. length (elements_of v);
  elements = elements_of;
  items = λ v. [];
  contains = λ v k. false;
  member = λ v k. none;
  element = λ v n. get_elem? (elements_of v) n;
  get_bool = flag_of;
  get_float = number_of;
  get_u16 = number_of;
  get_u32 = number_of;
  get_u64 = number_of;
  get_string = text_of;
  parse = λ s. none;
}

-- `strtoull` knows one number here.
abbrev env : Environment
env = record {
  home = some (codes "/root");
  cwd = none;
  strtoull16 = λ s. if_text (str_eq s (codes "C0000000"));
}
  where
    if_text : Bool → ℕ × Bool
    if_text true = (0xc000_0000, false)
    if_text false = (0xd000_0000, false)

abbrev items : List (Str × Value)
items =
    (codes "concurrency", number 32)
    ∷ (codes "hugepage_arena_size", number 64)
    ∷ (codes "allowed_paths", texts (codes "$HOME/a" ∷ codes "/srv/b" ∷ []))
    ∷ (codes "remapping", texts (codes "C0000000" ∷ codes "D0000000" ∷ []))
    ∷ (codes "concurrency", number 256)
    ∷ []

abbrev test_group : TenantGroup ℕ
test_group = make_group settings (codes "test")

add_remapping_lem_example : IsAccepted json env test_group (codes "remapping") (
    add_remapping json env test_group
      (codes "remapping")
      (texts (codes "C0000000" ∷ codes "D0000000" ∷ [])))
add_remapping_lem_example =
    add_remapping_lem json env test_group (codes "remapping")
      (texts (codes "C0000000" ∷ codes "D0000000" ∷ []))

-- One file with a checksum; a program is the number of its live updates.
abbrev files : Files
files = record {
  access = λ s. str_eq s (codes "/srv/hello");
  create_sha256_from_file = λ s. some (codes "beef");
  create_md5_from_file = λ s. none;
}

abbrev programs : Programs ℕ
programs = record {
  from_uri = λ s debug. none;
  from_files = λ s storage. some 0;
  has_storage = λ p. false;
  is_debug = λ p. false;
  serialize_entry = λ p. 0;
  deserialize_entry = λ p. 0;
  live_update_call = λ old f inst g. (0, inst);
  live_updates = λ p. p;
  set_live_updates = λ p n. n;
  set_transfer_bytes = λ p n. p;
}

abbrev tenant : Option ℕ → TenantInstance ℕ ℕ
tenant p = record {
  config = record config { uri = codes "https://a/b"; sha256 = codes "beef" };
  program = p;
  debug_program = none;
  started_init = false;
}

ref-program_of_example :
    (program_of files programs (ref files programs (tenant (some 3)) false true true).0 false
      ≡ some 3)
    × (true ≡ true)
unfolding ref
ref-program_of_example = ref-program_of files programs (tenant (some 3)) false true true 3 refl

reload_program_live_again_example :
    ((reload_program_live files programs (tenant (some 3)) false true true).0.program ≡ none)
    × ((ref files programs
          (reload_program_live files programs (tenant (some 3)) false true true).0
          false
          true
          true).0
        ≡ (begin_initialize files programs
            (record (tenant (some 3)) { program = none; started_init = false })
            false).0)
reload_program_live_again_example =
    reload_program_live_again files programs (tenant (some 3)) 3 true true refl refl

abbrev pool : Pool ℕ ℕ
pool = start kvm group (machine true no_regex) oks

abbrev no_task : PrivTask
no_task = record { priv = none; has_methods = false }

vmreserve_again_example :
    vmreserve queue kvm group 0
      (vmreserve queue kvm group 0 no_task pool true 0 9 true).0
      (vmreserve queue kvm group 0 no_task pool true 0 9 true).1
      false
      0
      9
      false
    ≡ (
      (vmreserve queue kvm group 0 no_task pool true 0 9 true).0,
      (vmreserve queue kvm group 0 no_task pool true 0 9 true).1,
      some 0,
    )
unfolding vmreserve reserve_vm start
vmreserve_again_example =
    vmreserve_again queue kvm group 0 no_task pool true false 0 9 0 true false refl

vmreserve_stale_example :
    (out : PrivTask × Pool ℕ ℕ × Option ℕ) × (vmreserve queue kvm group 0 no_task pool true 0 9
        false
      ≡ out)
    × (out.2 ≡ none)
    × (count 0 out.1.reserved ≡ 0)
    × (vmreserve queue kvm group 0 out.0 out.1 false 0 9 true ≡ (out.0, out.1, some 0))
unfolding reserve_vm start take_first
vmreserve_stale_example =
    vmreserve_stale queue kvm group 0 no_task pool false 0 9 0 true [] refl refl refl refl

-- The sum of a text in the place of its checksum.
abbrev text_sum : Str → ℕ
text_sum [] = 0
text_sum (c ∷ s) = c + text_sum s
