-- ===== src/Lib.antt =====
-- Dangless malloc replaces malloc and free by versions that give every allocation its own virtual
-- pages, as an alias of the physical pages that the system allocator uses. Freeing invalidates the
-- alias, so that a dangling pointer faults. These modules model how an alias is made, resolved and
-- revoked on the Dune platform, the hooks that do so, how the arguments of system calls are freed of
-- aliases and put back, and the formatter that diagnostics use, which may not allocate.
--
--   Page          sources/include/dangless/platform/mem.h and the macros of common/util.h
--   FreeList      sources/src/virtmem_alloc.c: freelist_alloc, freelist_free, freelist_reset,
--                 vp_free_region, over the list of spans of free virtual memory
--   Dune          sources/src/platform/dune/mem.c and physmem_alloc.c: where a page table can be
--                 reached, and the pages that new tables are made of
--   VirtMem       sources/src/virtmem.c and include/dangless/virtmem.h: pt_walk, pt_resolve_page,
--                 pt_resolve, pt_map_page, pt_map_region, pt_unmap_page
--   VirtualRemap  sources/src/platform/dune/virtual_remap.c: vremap_map, which calls vp_alloc,
--                 pt_map_region and vp_free; vremap_resolve, which calls pt_resolve; vremap_diag
--   Invalidate    virtual_invalidate of sources/src/dangless_malloc.c, which calls pt_walk
--   SysMalloc     the interface sources/include/dangless/platform/sysmalloc.h, and what fills it on
--                 Dune, sources/src/platform/dune/sysmalloc.c
--   Hooks         the rest of sources/src/dangless_malloc.c: dangless_malloc, dangless_calloc,
--                 dangless_posix_memalign, dangless_free, dangless_realloc, over the three above
--   Vmcall        sources/src/platform/dune/vmcall_fixup.c, vmcall_fixup_restore.c,
--                 vmcall_fixup_info.c and vmcall_hooks.c: the hooks around a system call
--   Printf        sources/src/common/printf_nomalloc.c: the formatter, from do_vsprintf to print_uint
--   Init          sources/src/platform/dune/init.c: dangless_init and the handler of page faults
--   PerfEvents    sources/src/common/perf_events.c: the life of the performance events
--   Rumprun       sources/src/platform/rumprun/physmem_alloc.c and mem.c: pages from 2 MB blocks
--   Dump          sources/src/dump.c: dump_pte, dump_pt and dump_pt_summary
--   Statistics    sources/src/common/statistics.c: the registry of counters
--   Prelude       the library names, Boolean tests, 64-bit arithmetic and results they share
--
-- A 64-bit word is a natural number; sums, differences and products wrap where the source computes
-- on uintptr_t or size_t. A function that changes state takes the state and returns a `Run`: the
-- result and the new state, or `fault` where an assertion fails. Each operation runs under its
-- mutex and is one step. Loops are structural recursion on the list of spans, on the levels of the
-- tables (four) or on the number of pages, but for three: that of virtual_invalidate has fuel for
-- each of its pages, and each round takes a page at least; that over an array of pointers which a
-- null pointer ends has the fuel that its caller gives, as many as the longest array has items;
-- the report of the statistics has fuel for the files and the counters, and a theorem says how much.
--
-- Dune itself is a git submodule: its constants, its page allocator (`page_at`, the result of each
-- call) and dune_va_to_pa are the fields of `Dune.Dune`, and `VirtMem.Tree.IsLayout` states what
-- the comments of platform/dune/mem.c and virtual_remap.c say of them. `VirtMem.Tree.IsTree` is the
-- well-formedness of page tables: each table has one place in the tree below CR3, and no page that
-- the allocator is still to return is one of them. `VirtualRemap.Ready.IsReady` is the invariant of
-- the whole state: what the list of spans owns is not mapped. `VirtualRemap.Session` is a run of
-- many remappings and revocations; the hooks are steps of it,
-- and `Hooks.Client.Trace` is a run of a program that calls them. The system allocator is a
-- `SysMalloc`; what the remapper's own calls of it for spans do to its state is a `Hooks.SpanMemory`.
-- `SysMalloc.Libc` has the C library's functions by their symbols. A store of a record behind its
-- buffer is a fault too. For the fixups of system calls, `Vmcall.Below` stands for vremap_resolve and
-- sysrealloc, and the generated table of parameters is an argument.
--
-- Not modelled: remapping and the system allocator of rumprun, logging, tracing,
-- dump_mappings, fork handling, which is switched off, tests and
-- test applications; the intermediate states that another processor sees while tables are being
-- written; queue.h, a copy of NetBSD's, whose lists are `List`.
pub mod Prelude
pub mod Page
pub mod FreeList
pub mod Dune
pub mod VirtMem
pub mod VirtualRemap
pub mod Invalidate
pub mod SysMalloc
pub mod Hooks
pub mod Vmcall
pub mod Printf
pub mod Init
pub mod PerfEvents
pub mod Rumprun
pub mod Dump
pub mod Statistics
