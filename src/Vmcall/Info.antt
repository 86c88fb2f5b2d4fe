-- ===== src/Vmcall/Info.antt =====
-- Which arguments of a system call are pointers, vmcall_fixup_info.c. The table it is generated with
-- is a parameter.
use dangless_malloc.Prelude.{
  ℕ, Option, none, some, List, [], ◌∷◌, leb, ◌==◌, if◌then◌else◌, length, get_elem?,
}

-- `enum vmcall_param_fixup_type`
pub data ParamFixup : Type 0 where
  no_fixup : ParamFixup
  flat_ptr : ParamFixup
  iovec : ParamFixup
  ptr_ptr : ParamFixup
  msghdr : ParamFixup

-- The parameters of a system call, `num_params` of them.
abbrev pub FixupInfo : Type 0
FixupInfo = List ParamFixup

-- `s_clone_info`
abbrev pub clone_info : FixupInfo
clone_info = no_fixup ∷ flat_ptr ∷ flat_ptr ∷ flat_ptr ∷ no_fixup ∷ []

-- `vmcall_get_fixup_info`
unfoldable pub get_fixup_info : List FixupInfo → ℕ → Option FixupInfo
get_fixup_info table syscallno =
    if syscallno == 56
    then some clone_info
    else if leb (length table) syscallno
    then none
    else get_elem? table syscallno
