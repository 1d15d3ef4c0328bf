-- ===== src/Invariant/Outer.antt =====
-- Changes that leave the heap, the tables, the queue and the set of scheduler.h alone.
use os_ex.Prelude.{ℕ, Bool, Option}
use os_ex.Machine.{System, Itimerval}
use os_ex.Invariant.Defs.{Inv}

pub outer-Inv :
    {cap cur : ℕ} {s : System} (stack running_thread_id total_quantoms : ℕ) (masked handled : Bool)
    (itimer : Option Itimerval)
    → Inv cap cur s
    → Inv cap cur (record s {
      stack = stack;
      running_thread_id = running_thread_id;
      total_quantoms = total_quantoms;
      masked = masked;
      handled = handled;
      itimer = itimer;
    })
outer-Inv stack running_thread_id total_quantoms masked handled itimer inv = record {
  objects = record {
    cells = inv.cells;
    fresh = inv.fresh;
    null = inv.null;
    nonnull = inv.nonnull;
    entries = inv.entries;
    queue = inv.queue;
    sleepers = inv.sleepers;
  };
  ids = record {
    split = inv.split;
    sorted = inv.sorted;
    unique = inv.unique;
    sizes = inv.sizes;
    capacity = inv.capacity;
    few = inv.few;
    has_main = inv.has_main;
  };
}
