-- ===== src/Runtime/Calls/Atomicity.antt =====
-- src/app/task_runtime_repository.cpp: a method as a unit, under failing statements.
use photobridge.Base.{false, none, ◌≡◌}
use photobridge.Common.Status.{is_ok}
use photobridge.Runtime.Tables.{Tables}
use photobridge.Runtime.Store.{Repository}
use photobridge.Runtime.Laws.{Law}
use photobridge.Runtime.Calls.{Atomic-run, Call, run}

abbrev pub Anything : Tables → Tables → Type 0
Anything t u = Unit {0}

pub anything : Law Anything
anything = record {
  same = λ t. tt;
  chain = λ t u v h k. tt;
  epoch = λ plan n t. tt;
  added = λ plan task t u a h. tt;
  readied = λ plan task t. tt;
  claimed = λ plan task epoch attempt t. tt;
  released = λ plan task epoch attempt next error t v. tt;
  started = λ attempt plan task epoch now t u a h. tt;
  progressed = λ plan task attempt epoch now state outcome error finish t. tt;
  logged = λ e t u a h. tt;
  received = λ plan r t u n h. tt;
  depended = λ plan task depends_on t u n w h. tt;
}

-- A method called outside every transaction and write batch, whatever statements fail under it,
-- ends outside them again, and where it returns an error it has changed no table.
pub run-atomic :
    (c : Call) (s : Repository)
    → s.saved ≡ none
    → s.batch ≡ none
    → ((run c s).1.saved ≡ none)
      × ((run c s).1.batch ≡ none)
      × (is_ok (run c s).0 ≡ false → (run c s).1.tables ≡ s.tables)
run-atomic c s v b =
    let h = (Atomic-run anything c).at s v b in (h.closed, h.unbatched, h.unchanged)
