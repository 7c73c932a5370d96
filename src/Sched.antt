-- ===== src/Sched.antt =====
-- The CPU scheduler of the operating system simulation, cs_2200/scheduling/prj6/student.c. The
-- handlers run one after another, as current_mutex makes them; a pointer to a process is its
-- index. What the scheduler asks of the simulator, context_switch and force_preempt, is kept as a
-- list of calls. `none` is a thread that waits for ready_queue_mutex while it is held, an index
-- outside current[], or a NULL process.
pub mod Wake
use backup_gatech.Common.{
  ℕ, zero, suc, ◌+◌, ◌-◌, ◌*◌, Option, none, some, List, [], ◌∷◌, Bool, true, false, if◌then◌else◌,
  ◌==◌, ltb, set, get_elem?,
}

pub data ScheduleType : Type 0 where
  fifo robin priority : ScheduleType

pub data ProcessState : Type 0 where
  process_new process_ready process_running process_waiting process_terminated : ProcessState

pub record Pcb : Type 0 where
  pub static_priority : ℕ
  pub state : ProcessState
  pub next : Option ℕ

pub data Call : Type 0 where
  context_switch : (cpu : ℕ) → Option ℕ → Call
  force_preempt : (cpu : ℕ) → Call

pub record Sim : Type 0 where
  pub pcbs : ℕ → Pcb
  pub current : List (Option ℕ)
  pub sim_type : ScheduleType
  pub head : Option ℕ
  pub tail : Option ℕ
  pub size : ℕ
  pub locked : Bool
  pub calls : List Call

pub put_pcb : (ℕ → Pcb) → ℕ → Pcb → ℕ → Pcb
put_pcb f p e q = if q == p then e else f q

abbrev pub set_state : ProcessState → ℕ → Sim → Sim
set_state st p s = record s { pcbs = put_pcb s.pcbs p (record (s.pcbs p) { state = st }) }

abbrev pub is_running : ProcessState → Bool
is_running process_running = true
is_running _ = false

-- From an empty queue the thread returns with the mutex held.
pub get_next_process : Sim → Option (Option ℕ × Sim)
get_next_process s = if s.locked then none else elim s.head [
  | none ↦ some (none, record s { locked = true })
  | some p ↦ some (
    some p,
    record s {
      pcbs = put_pcb s.pcbs p (record (s.pcbs p) { next = none });
      head = (s.pcbs p).next;
      tail = elim (s.pcbs p).next [ none ↦ none | some q ↦ s.tail ];
      size = s.size - 1;
    },
  )
]

pub add_proccess : ℕ → Sim → Option Sim
add_proccess p s = if s.locked then none else elim s.tail [
  | none ↦ some (record s {
    pcbs = put_pcb s.pcbs p (record (s.pcbs p) { next = none });
    head = some p;
    tail = some p;
    size = suc s.size;
  })
  | some t ↦
      let linked = put_pcb s.pcbs t (record (s.pcbs t) { next = some p }) in
      some (record s {
        pcbs = put_pcb linked p (record (linked p) { next = none });
        tail = some p;
        size = suc s.size;
      })
]

-- The process that a CPU got from the queue runs; with none the CPU is idle.
pub start_next : (cpu : ℕ) → Option (Option ℕ × Sim) → Option Sim
start_next cpu none = none
start_next cpu (some (none, s)) =
    some (record s { current = set s.current cpu none; calls = context_switch cpu none ∷ s.calls })
start_next cpu (some (some p, s)) =
    let s' = set_state process_running p s in
    some (record s' {
      current = set s.current cpu (some p);
      calls = context_switch cpu (some p) ∷ s.calls;
    })

pub schedule : ℕ → Sim → Option Sim
schedule cpu s = elim (get_elem? s.current cpu) [
  | none ↦ none
  | some o ↦ elim o [
    | none ↦ start_next cpu (get_next_process s)
    | some p ↦
        let other = start_next cpu (get_next_process s) in
        if is_running (s.pcbs p).state then some s else other
  ]
]

-- pthread_cond_wait lets the mutex go, takes it when a process was added, and it is unlocked.
pub idle : ℕ → Sim → Option Sim
idle cpu s = schedule cpu (record s { locked = false })

pub preempt_worker : ℕ → Sim → Option Sim
preempt_worker cpu s = elim (get_elem? s.current cpu) [
  | none ↦ none
  | some o ↦ elim o [ none ↦ some s | some p ↦ add_proccess p (set_state process_ready p s) ]
]

pub preempt : ℕ → Sim → Option Sim
preempt cpu s = elim (preempt_worker cpu s) [ none ↦ none | some s' ↦ schedule cpu s' ]

-- The process of the CPU changes its state and another one is scheduled.
pub leave : ProcessState → ℕ → Sim → Option Sim
leave st cpu s = elim (get_elem? s.current cpu) [
  | none ↦ none
  | some o ↦ elim o [ none ↦ none | some p ↦ schedule cpu (set_state st p s) ]
]

pub yield : ℕ → Sim → Option Sim
yield cpu s = leave process_waiting cpu s

pub terminate : ℕ → Sim → Option Sim
terminate cpu s = leave process_terminated cpu s

-- What the loop of wake_up does with the CPU `i`: it is idle, or it has a priority.
pub busy_priority : (ℕ → Pcb) → Option ℕ → Option ℕ
busy_priority f none = none
busy_priority f (some p) = if is_running (f p).state then some (f p).static_priority else none

-- The loop from CPU `i` on: the first idle CPU, or the CPU with the lowest priority below
-- `min_priority`.
pub choose_cpu :
    (ℕ → Pcb) → List (Option ℕ) → (i min_priority : ℕ) → (min_cpu : Option ℕ) → Option ℕ
choose_cpu f [] i m best = best
choose_cpu f (o ∷ os) i m best = elim (busy_priority f o) [
  | none ↦ some i
  | some q ↦ choose_cpu f os (suc i) (if ltb q m then q else m) (if ltb q m then some i else best)
]

pub force : Option ℕ → Sim → Sim
force none s = s
force (some cpu) s = record s { calls = force_preempt cpu ∷ s.calls }

abbrev pub is_priority : ScheduleType → Bool
is_priority priority = true
is_priority _ = false

pub wake_up : ℕ → Sim → Option Sim
wake_up p s = elim (add_proccess p (set_state process_ready p s)) [
  | none ↦ none
  | some s' ↦ some (
      if is_priority s'.sim_type
      then force (choose_cpu s'.pcbs s'.current 0 (s'.pcbs p).static_priority none) s'
      else s')
]
